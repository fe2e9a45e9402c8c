-- ===== src/Mdns/Program.antt =====
-- src/main/c/foo/MdnsSd.c, `parseArgs`, `run` and `main`. The arguments are `argv[1 ..]`.
use unspecified_garbage.Common.{
  ℕ, zero, suc, ◌+◌, ◌-◌, ◌*◌, ◌≤◌, ◌<◌, ◌≡◌, ◌≢◌, ◌↔◌, ◌⊎◌, inl, inr, sym, le→ltb, lt→ltb, refl,
  arith, Bool, true, false, not, List, [], ◌∷◌, ◌++◌, Option, none, some, ltb, ◌==◌, if◌then◌else◌,
  Bytes, bytes_eq, codes, length, take,
}
use native.Mathlib.Decide.{dec_le}
use mathlib.Core.Path.{subst}

pub data Args : Type 0 where
  help accepted rejected : Args

-- The loop over the arguments behind the first; with none at all "--yolo" is missing.
unfoldable pub parse_loop : List Bytes → Args
unfolding bytes_eq
parse_loop [] = accepted
parse_loop (arg ∷ args) =
    let rest = parse_loop args in
    if bytes_eq arg (codes "--help")
    then help
    else if bytes_eq arg (codes "--yolo")
    then rest
    else rejected

unfoldable pub parse_args : List Bytes → Args
unfolding parse_loop
parse_args [] = rejected
parse_args (arg ∷ args) = parse_loop (arg ∷ args)

-- The array `qname`, with the NUL behind the literal.
abbrev pub qname : Bytes
qname = 5 ∷ codes "_http" ++ 0 ∷ 4 ∷ codes "_tcp" ++ 0 ∷ 5 ∷ codes "local" ++ 0 ∷ []

-- The message that is sent: the header, `sizeof qname - 2` bytes of the name, its end, the type and
-- the class.
abbrev pub query : Bytes
query =
    (0 ∷ 0 ∷ 0 ∷ 0 ∷ 0 ∷ 1 ∷ 0 ∷ 0 ∷ 0 ∷ 0 ∷ 0 ∷ 0 ∷ [])
    ++ (take (length qname - 2) qname ++ (0 ∷ 0 ∷ 0x0C ∷ 0 ∷ 0x0C ∷ []))

-- What `select` tells.
pub data Select : Type 0 where
  select_error timeout readable : Select

pub data Wait : Type 0 where
  gave_up failed received out_of_fuel : Wait

-- The loop that waits for an answer; `total` is `totalWaitingSec`, and `select n` what the call of
-- round `n` gives.
unfoldable pub wait : (ℕ → Select) → ℕ → ℕ → ℕ → Wait
wait select zero n total = out_of_fuel
wait select (suc fuel) n total = if ltb 17 total then gave_up else elim (select n) [
  | select_error ↦ failed
  | timeout ↦ wait select fuel (n + 1) (total + 3)
  | readable ↦ received
]

-- The network: whether the start of the library, its end and the socket work, how much of a message is sent
-- (`none` for an error), and what `select` gives.
pub record Net : Type 0 where
  pub starts : Bool
  pub cleans_up : Bool
  pub has_socket : Bool
  pub send : Bytes → Option ℕ
  pub select : ℕ → Select

-- `run` returns a number below 0, or ends at a failed assert.
pub data Run : Type 0 where
  negative aborted : Run

pub is_sent : Option ℕ → Bool
is_sent none = false
is_sent (some n) = n == length query

-- Behind the read of an answer there is an assert that always fails.
pub after_wait : Wait → Run
after_wait gave_up = negative
after_wait failed = negative
after_wait received = aborted
after_wait out_of_fuel = aborted

unfoldable pub run : Net → Run
unfolding wait is_sent after_wait
run net =
    if not net.has_socket
    then negative
    else if not (is_sent (net.send query))
    then aborted
    else after_wait (wait net.select 7 0 0)

pub data Exit : Type 0 where
  code : ℕ → Exit
  abort : Exit

pub exit_of : Bool → Run → Exit
exit_of cleans_up negative = if cleans_up then code 1 else abort
exit_of cleans_up aborted = abort

unfoldable pub main : Net → List Bytes → Exit
unfolding exit_of parse_args
main net args = if not net.starts then abort else elim (parse_args args) [
  | help ↦ code 0
  | rejected ↦ code 1
  | accepted ↦ exit_of net.cleans_up (run net)
]

select-cases : (s : Select) → (s ≡ select_error) ⊎ ((s ≡ timeout) ⊎ (s ≡ readable))
select-cases select_error = inl refl
select-cases timeout = inr (inl refl)
select-cases readable = inr (inr refl)

module _ (select : ℕ → Select) where
  wait-timeout :
      (fuel n total : ℕ)
      → total ≤ 17
      → select n ≡ timeout
      → wait select (suc fuel) n total ≡ wait select fuel (n + 1) (total + 3)
  unfolding wait
  wait-timeout fuel n total h e = rw (le→ltb 17 total h, e)

  wait-error :
      (fuel n total : ℕ)
      → total ≤ 17
      → select n ≡ select_error
      → wait select (suc fuel) n total ≡ failed
  unfolding wait
  wait-error fuel n total h e = rw (le→ltb 17 total h, e)

  wait-readable :
      (fuel n total : ℕ)
      → total ≤ 17
      → select n ≡ readable
      → wait select (suc fuel) n total ≡ received
  unfolding wait
  wait-readable fuel n total h e = rw (le→ltb 17 total h, e)

  wait-enough : (fuel n total : ℕ) → 17 < total → wait select (suc fuel) n total ≡ gave_up
  unfolding wait
  wait-enough fuel n total h = rw (lt→ltb 17 total h)

  -- How the loop ends from round `n` on.
  abbrev Ends : ℕ → Wait → Type 0
  Ends n w = (w ≢ out_of_fuel) × ((w ≡ gave_up) ↔ ((i : ℕ) → n ≤ i → i < 6 → select i ≡ timeout))

  at_or_behind :
      (n : ℕ)
      → select n ≡ timeout
      → ((i : ℕ) → n + 1 ≤ i → i < 6 → select i ≡ timeout)
      → (i : ℕ) → n ≤ i
      → i < 6
      → select i ≡ timeout
  at_or_behind n s g i a b = elim (dec_le (n + 1) i) [
    | yes p ↦ g i p b
    | no q ↦ let same : n ≡ i = omega arith in subst (λ k. select k ≡ timeout) same s
  ]

  -- Round `n` has waited for three seconds for each round before it; `left` more may time out.
  wait-Ends :
      (left n total : ℕ) → n + left ≡ 6 → total ≡ 3 * n → Ends n (wait select (suc left) n total)
  wait-Ends zero n total e t =
      subst (Ends n) (sym (wait-enough 0 n total (omega arith)))
        (λ x. cc, (λ x i a b. absurd (omega arith), λ f. refl))
  wait-Ends (suc left) n total e t = elim (select-cases (select n)) [
    | inl s ↦
        subst (Ends n) (sym (wait-error (suc left) n total (omega arith) s))
          (λ x. cc, (λ x. absurd cc, λ f. absurd (timeout_ne s (f n (omega arith) (omega arith)))))
    | inr (inl s) ↦
        let (ends, (g, h)) = wait-Ends left (n + 1) (total + 3) (omega arith) (omega arith) in
        subst (Ends n) (sym (wait-timeout (suc left) n total (omega arith) s))
          (ends, (λ w i a b. at_or_behind n s (g w) i a b, λ f. h (λ i a b. f i (omega arith) b)))
    | inr (inr s) ↦
        subst (Ends n) (sym (wait-readable (suc left) n total (omega arith) s))
          (λ x. cc, (λ x. absurd cc, λ f. absurd (readable_ne s (f n (omega arith) (omega arith)))))
  ]
    where
      timeout_ne : {s : Select} → s ≡ select_error → s ≢ timeout
      timeout_ne e f = cc

      readable_ne : {s : Select} → s ≡ readable → s ≢ timeout
      readable_ne e f = cc

-- Whatever the calls of `select` give, the loop that waits ends within its seven rounds, and gives up
-- exactly where the first six calls all time out.
pub wait_gives_up_iff :
    (select : ℕ → Select)
    → (wait select 7 0 0 ≢ out_of_fuel)
      × ((wait select 7 0 0 ≡ gave_up) ↔ ((i : ℕ) → i < 6 → select i ≡ timeout))
wait_gives_up_iff select =
    let (e, (g, h)) = wait-Ends select 6 0 0 refl refl in
    (e, (λ w i l. g w i (omega arith) l, λ t. h (λ i k l. t i l)))

-- Where the network library starts, the program returns 0 exactly where help is asked for.
pub main_zero_iff :
    (net : Net) (args : List Bytes)
    → net.starts ≡ true
    → (main net args ≡ code 0) ↔ (parse_args args ≡ help)
unfolding main
main_zero_iff net args s =
    (λ e. ground (arith, exit_of_ne net.cleans_up (run net)), λ e. ground arith)
  where
    exit_of_ne : (c : Bool) (r : Run) → exit_of c r ≢ code 0
    exit_of_ne true negative e = cc
    exit_of_ne false negative e = cc
    exit_of_ne c aborted e = cc
