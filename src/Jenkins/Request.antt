-- ===== src/Jenkins/Request.antt =====
-- src/main/paisa/JenkinsReBuild.c, `TODO_refactorMeToAProperApi`: the URL of the request.
use unspecified_garbage.Common.{
  ℕ, inl, inr, Bool-cases, le→ltb, ltb→lt, lt→ltb, ◌+◌, ◌-◌, ◌≤◌, ◌<◌, ◌≡◌, ◌↔◌, ◌∙◌, refl, sym, ap,
  arith, List, [], ◌∷◌, ◌++◌, append_assoc, Option, none, some, ltb, if◌then◌else◌, Bytes, codes,
  length, length-append, length-take, take, take-all,
}

abbrev pub url_cap : ℕ
url_cap = 256

-- `url` up to its NUL, and how far `it` is behind its start.
pub record Url : Type 0 where
  pub text : Bytes
  pub it : ℕ

-- `snprintf` at `it`, which moves by the length that it would have needed. Behind the end of the buffer, `SPACE`
-- is negative, and a huge size as an argument: `none`, as it writes there.
unfoldable pub put : Bytes → Url → Option Url
put bytes url =
    if ltb url_cap url.it
    then none
    else some (record {
      text = url.text ++ take (url_cap - 1 - url.it) bytes;
      it = url.it + length bytes;
    })

unfoldable pub put_all : List Bytes → Url → Option Url
unfolding put
put_all [] url = some url
put_all (piece ∷ pieces) url = elim (put piece url) [
  | none ↦ none
  | some more ↦ put_all pieces more
]

abbrev pub url_pieces : Bytes → Bytes → List Bytes
url_pieces service branch =
    codes "/job/" ∷ service ∷ codes "/job/" ∷ branch ∷ codes "/lastBuild/pipeline-graph/tree" ∷ []

unfoldable pub request_url : Bytes → Bytes → Option Url
unfolding put_all
request_url service branch = put_all (url_pieces service branch) (record { text = []; it = 0 })

abbrev pub full_url : Bytes → Bytes → Bytes
full_url service branch =
    codes "/job/"
    ++ (service ++ (codes "/job/" ++ (branch ++ codes "/lastBuild/pipeline-graph/tree")))

abbrev next_url : Bytes → Url → Url
next_url bytes url = record {
  text = url.text ++ take (url_cap - 1 - url.it) bytes;
  it = url.it + length bytes;
}

module _ (piece : Bytes) (pieces : List Bytes) (url : Url) where
  put_all-over : url_cap < url.it → put_all (piece ∷ pieces) url ≡ none
  unfolding put_all put
  put_all-over h = rw (put_all, put, lt→ltb 256 url.it h) refl

  put_all-next :
      url.it ≤ url_cap → put_all (piece ∷ pieces) url ≡ put_all pieces (next_url piece url)
  unfolding put_all put
  put_all-next h = rw (put_all, put, le→ltb 256 url.it h) refl

  put_all-fits :
      url.it + length piece < url_cap
      → put_all (piece ∷ pieces) url
        ≡ put_all pieces (record { text = url.text ++ piece; it = url.it + length piece })
  put_all-fits h =
      put_all-next (omega (arith, h))
      ∙ ap (λ t. put_all pieces (record { text = url.text ++ t; it = url.it + length piece }))
          (take-all (255 - url.it) piece (omega (arith, h)))

-- The URL behind the name of the branch, as far as it is written.
abbrev with_branch : Bytes → Bytes → Url
with_branch service branch = next_url branch (
    next_url (codes "/job/")
      (next_url service (next_url (codes "/job/") (record { text = []; it = 0 }))))

abbrev last_piece : Bytes
last_piece = codes "/lastBuild/pipeline-graph/tree"

abbrev empty_url : Url
empty_url = record { text = []; it = 0 }

module _ (service branch : Bytes) where
  request_url-over : 246 < length service + length branch → request_url service branch ≡ none
  unfolding request_url
  request_url-over h =
      put_all-next (codes "/job/") (service ∷ codes "/job/" ∷ branch ∷ last_piece ∷ [])
        (record { text = []; it = 0 }) (omega arith)
      ∙ put_all-next service (codes "/job/" ∷ branch ∷ last_piece ∷ [])
          (next_url (codes "/job/") (record { text = []; it = 0 })) (omega arith)
      ∙ elim (Bool-cases (ltb 251 (length service))) [
        | inl a ↦ put_all-over (codes "/job/") (branch ∷ last_piece ∷ []) url_2 (ground (arith, a))
        | inr a ↦
            put_all-next (codes "/job/") (branch ∷ last_piece ∷ []) url_2 (ground (arith, a))
            ∙ elim (Bool-cases (ltb 246 (length service))) [
              | inl b ↦
                  put_all-over branch (last_piece ∷ []) (next_url (codes "/job/") url_2)
                    (ground (arith, b))
              | inr b ↦
                  put_all-next branch (last_piece ∷ []) (next_url (codes "/job/") url_2)
                    (ground (arith, b))
                  ∙ put_all-over last_piece [] (with_branch service branch) (omega (arith, h))
            ]
      ]
    where
      url_2 : Url
      url_2 = next_url service (next_url (codes "/job/") (record { text = []; it = 0 }))

  request_url-some :
      length service + length branch ≤ 246
      → request_url service branch ≡ some (next_url last_piece (with_branch service branch))
  unfolding request_url put_all
  request_url-some h =
      put_all-next (codes "/job/") (service ∷ codes "/job/" ∷ branch ∷ last_piece ∷ []) empty_url
        (omega arith)
      ∙ put_all-next service (codes "/job/" ∷ branch ∷ last_piece ∷ [])
          (next_url (codes "/job/") empty_url) (omega arith)
      ∙ put_all-next (codes "/job/") (branch ∷ last_piece ∷ [])
          (next_url service (next_url (codes "/job/") empty_url)) (omega (arith, h))
      ∙ put_all-next branch (last_piece ∷ [])
          (next_url (codes "/job/") (next_url service (next_url (codes "/job/") empty_url)))
          (omega (arith, h))
      ∙ put_all-next last_piece [] (with_branch service branch) (omega (arith, h))

-- The text is shorter than the buffer, and not longer than the way of `it`.
record IsBounded (url : Url) : Type 0 where
  in_buf : length url.text < url_cap
  in_way : length url.text ≤ url.it

next_url-IsBounded : (bytes : Bytes) (url : Url) → IsBounded url → IsBounded (next_url bytes url)
next_url-IsBounded bytes url b =
    let l = length-append url.text (take (255 - url.it) bytes) in
    let t = length-take (255 - url.it) bytes in
    record {
      in_buf = omega (arith, l, t, IsBounded.in_buf b, IsBounded.in_way b);
      in_way = omega (arith, l, t, IsBounded.in_way b);
    }

next_url-fits :
    (bytes : Bytes) (url : Url)
    → url.it + length bytes < url_cap
    → next_url bytes url ≡ record { text = url.text ++ bytes; it = url.it + length bytes }
next_url-fits bytes url h =
    ap (λ t. record { text = url.text ++ t; it = url.it + length bytes })
      (take-all (255 - url.it) bytes (omega (arith, h)))

module _ (service branch : Bytes) where
  abbrev with_all : Url
  with_all = next_url last_piece (with_branch service branch)

  with_all-IsBounded : IsBounded with_all
  with_all-IsBounded = next_url-IsBounded last_piece (with_branch service branch) (
      next_url-IsBounded branch
        (next_url (codes "/job/") (next_url service (next_url (codes "/job/") empty_url)))
        (next_url-IsBounded (codes "/job/") (next_url service (next_url (codes "/job/") empty_url))
          (next_url-IsBounded service (next_url (codes "/job/") empty_url) (
            next_url-IsBounded (codes "/job/") empty_url
              (record { in_buf = omega arith; in_way = omega arith })))))

  with_all-text : length service + length branch < 216 → with_all.text ≡ full_url service branch
  with_all-text h =
      ap
        (λ (u : Url). Url.text (next_url last_piece (next_url branch (next_url (codes "/job/") u))))
        (next_url-fits service (next_url (codes "/job/") empty_url) (omega (arith, h)))
      ∙ ap (λ (u : Url). Url.text (next_url last_piece (next_url branch u)))
          (next_url-fits (codes "/job/") with_service (omega (arith, h)))
      ∙ ap (λ (u : Url). Url.text (next_url last_piece u))
          (next_url-fits branch with_job (omega (arith, h)))
      ∙ ap Url.text (next_url-fits last_piece with_both (omega (arith, h)))
      ∙ simp append_assoc refl
    where
      with_service : Url
      with_service = record { text = codes "/job/" ++ service; it = 5 + length service }

      with_job : Url
      with_job = record {
        text = (codes "/job/" ++ service) ++ codes "/job/";
        it = 5 + length service + 5;
      }

      with_both : Url
      with_both = record {
        text = ((codes "/job/" ++ service) ++ codes "/job/") ++ branch;
        it = 5 + length service + 5 + length branch;
      }

  some_url : {a b : Url} → some a ≡ some b → a ≡ b
  some_url e = cc

  -- A write behind the end of the buffer for the URL happens exactly where the names of the service and
  -- the branch have more than 246 bytes together, and the URL is written as a whole exactly where they have fewer
  -- than 216. Between the two it is cut off.
  pub request_url_iff :
      ((request_url service branch ≡ none) ↔ (246 < length service + length branch))
      × (((url : Url) × (request_url service branch ≡ some url)
            × (url.text ≡ full_url service branch))
          ↔ (length service + length branch < 216))
  request_url_iff = ((none_over, request_url-over service branch), (full_short, short_full))
    where
      none_over : request_url service branch ≡ none → 246 < length service + length branch
      none_over e = elim (Bool-cases (ltb 246 (length service + length branch))) [
        | inl t ↦ ltb→lt 246 (length service + length branch) t
        | inr f ↦ absurd (cc (e, request_url-some service branch (ground (arith, f))))
      ]

      full_length : length (full_url service branch) ≡ length service + length branch + 40
      full_length = simp length-append (omega arith)

      full_short :
          ((url : Url) × (request_url service branch ≡ some url)
            × (url.text ≡ full_url service branch))
          → length service + length branch < 216
      full_short (url, e, t) = elim (Bool-cases (ltb 246 (length service + length branch))) [
        | inl o ↦ absurd (
            cc (e, request_url-over service branch (ltb→lt 246 (length service + length branch) o)))
        | inr f ↦
            let same = some_url (sym e ∙ request_url-some service branch (ground (arith, f))) in
            omega (
              arith,
              full_length,
              ap length t,
              ap (λ (u : Url). length u.text) same,
              IsBounded.in_buf with_all-IsBounded,
            )
      ]

      short_full :
          length service + length branch < 216
          → (url : Url) × (request_url service branch ≡ some url)
            × (url.text ≡ full_url service branch)
      short_full h = (with_all, request_url-some service branch (omega (arith, h)), with_all-text h)
