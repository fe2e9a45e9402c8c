-- ===== src/Fin/Args.antt =====
-- src/main/paisa-SendAfterFin/SendAfterFin.c: the arguments, and what `main` does with them.
use unspecified_garbage.Common.{
  ℕ, ◌≤◌, ◌≡◌, ◌⊎◌, inl, inr, refl, arith, Bool, true, false, not, ◌&&◌, ◌||◌, List, [], ◌∷◌,
  Option, none, some, leb, ◌==◌, if◌then◌else◌, if_both, Bytes, bytes_eq, codes, ℤ, pos, negsuc,
  Scanned, scanned_int,
}

-- The flags one by one, and the port.
pub record App : Type 0 where
  pub is_help : Bool
  pub is_client : Bool
  pub is_server : Bool
  pub is_listen_any : Bool
  pub port : ℤ

abbrev pub initial : App
initial = record {
  is_help = false;
  is_client = false;
  is_server = false;
  is_listen_any = false;
  port = negsuc 0;
}

abbrev pub in_range : ℤ → Bool
in_range (pos n) = leb 1 n && leb n 0xFFFF
in_range (negsuc n) = false

-- `app->port == -1`
abbrev pub is_port_missing : ℤ → Bool
is_port_missing (pos n) = false
is_port_missing (negsuc n) = n == 0

unfoldable pub verify : App → Option App
verify app =
    if app.is_client && app.is_server || not (app.is_client || app.is_server)
    then none
    else if is_port_missing app.port
    then none
    else some app

module _ (strtol : Bytes → Scanned) where
  -- The port, from the text of its option.
  unfoldable pub read_port : Bytes → Option ℤ
  unfolding scanned_int
  read_port text = elim (scanned_int (strtol text)) [
    | none ↦ none
    | some n ↦ if in_range n then some n else none
  ]

  -- `none` is the return value -1.
  unfoldable pub parse_loop : List Bytes → App → Option App
  unfolding verify read_port bytes_eq
  parse_loop [] app = verify app
  parse_loop (arg ∷ []) app =
      if bytes_eq arg (codes "--help")
      then some (record app { is_help = true })
      else if bytes_eq arg (codes "--client")
      then verify (record app { is_client = true })
      else if bytes_eq arg (codes "--server")
      then verify (record app { is_server = true })
      else if bytes_eq arg (codes "--listen-any")
      then verify (record app { is_listen_any = true })
      else none
  parse_loop (arg ∷ value ∷ args) app =
      if bytes_eq arg (codes "--help")
      then some (record app { is_help = true })
      else elim (bytes_eq arg (codes "--client")) [
        | true ↦ parse_loop (value ∷ args) (record app { is_client = true })
        | false ↦ elim (bytes_eq arg (codes "--server")) [
          | true ↦ parse_loop (value ∷ args) (record app { is_server = true })
          | false ↦ elim (bytes_eq arg (codes "--port")) [
            | true ↦ elim (read_port value) [
              | none ↦ none
              | some n ↦ parse_loop args (record app { port = n })
            ]
            | false ↦ elim (bytes_eq arg (codes "--listen-any")) [
              | true ↦ parse_loop (value ∷ args) (record app { is_listen_any = true })
              | false ↦ none
            ]
          ]
        ]
      ]

  unfoldable pub parse_args : List Bytes → Option App
  unfolding parse_loop
  parse_args args = parse_loop args initial

-- The address to bind or to connect to.
pub record Addr : Type 0 where
  pub port : ℤ
  pub ip : ℕ

unfoldable pub server_addr : App → Addr
server_addr app = record { port = app.port; ip = if app.is_listen_any then 0 else 0x7F000001 }

unfoldable pub client_addr : App → Addr
client_addr app = record { port = app.port; ip = 0x7F000001 }

-- What the program does: it exits, or plays a role at an address.
pub data Role : Type 0 where
  exits : ℕ → Role
  client : Addr → Role
  server : Addr → Role
  unreachable : Role

unfoldable pub main : (Bytes → Scanned) → List Bytes → Role
unfolding parse_args server_addr client_addr
main strtol args = elim (parse_args strtol args) [
  | none ↦ exits 1
  | some app ↦
      if app.is_help
      then exits 1
      else if app.is_client
      then client (client_addr app)
      else if app.is_server
      then server (server_addr app)
      else unreachable
]

-- The port is missing or in its range.
abbrev PortReady : ℤ → Type 0
PortReady (pos n) = (1 ≤ n) × (n ≤ 0xFFFF)
PortReady (negsuc n) = n ≡ 0

-- Without a call for help: one role, and a port.
abbrev Ready : App → Type 0
Ready app =
    app.is_help ≡ false
    → ((app.is_client && app.is_server || not (app.is_client || app.is_server)) ≡ false)
      × (n : ℕ) × (app.port ≡ pos n)
      × (1 ≤ n)
      × (n ≤ 0xFFFF)

abbrev OnSome : (App → Type 0) → Option App → Type 0
OnSome P none = Unit
OnSome P (some app) = P app

elim_both :
    (P : Option App → Type 0) (b : Bool) {x y : Option App}
    → P x
    → P y
    → P (elim b [ true ↦ x | false ↦ y ])
elim_both P true hx hy = hx
elim_both P false hx hy = hy

in_range-PortReady : (n : ℤ) → in_range n ≡ true → PortReady n
in_range-PortReady (pos n) e = (ground (arith, e), ground (arith, e))
in_range-PortReady (negsuc n) e = absurd cc

verify-Ready : (app : App) → PortReady app.port → OnSome Ready (verify app)
unfolding verify
verify-Ready app h =
    if_both (OnSome Ready) (app.is_client && app.is_server || not (app.is_client || app.is_server))
      (λ _. tt) (λ one. with_port one app.port refl h)
  where
    with_port :
        (app.is_client && app.is_server || not (app.is_client || app.is_server)) ≡ false
        → (p : ℤ) → app.port ≡ p
        → PortReady p
        → OnSome Ready (if is_port_missing p then none else some app)
    with_port one (pos n) e r = λ _. (one, n, e, r.0, r.1)
    with_port one (negsuc n) e r =
        if_both (OnSome Ready) (n == 0) (λ _. tt) (λ f. absurd (ground (arith, f, r)))

module _ (strtol : Bytes → Scanned) where
  read_port-PortReady :
      (text : Bytes)
      → elim (read_port strtol text) as (λ _. Type 0) [ none ↦ Unit | some n ↦ PortReady n ]
  unfolding read_port
  read_port-PortReady text = go (scanned_int (strtol text))
    where
      go :
          (o : Option ℤ)
          → elim (elim o as (λ _. Option ℤ) [
            | none ↦ none
            | some n ↦ if in_range n then some n else none
          ])
              as (λ _. Type 0) [ none ↦ Unit | some n ↦ PortReady n ]
      go none = tt
      go (some n) =
          if_both (λ (o : Option ℤ). elim o as (λ _. Type 0) [ none ↦ Unit | some n ↦ PortReady n ])
            (in_range n) (in_range-PortReady n) (λ _. tt)

  parse_loop-Ready :
      (args : List Bytes) (app : App)
      → PortReady app.port
      → OnSome Ready (parse_loop strtol args app)
  unfolding parse_loop
  parse_loop-Ready [] app h = verify-Ready app h
  parse_loop-Ready (arg ∷ []) app h =
      if_both (OnSome Ready) (bytes_eq arg (codes "--help")) (λ _ q. absurd cc)
        λ _.
          if_both (OnSome Ready) (bytes_eq arg (codes "--client"))
            (λ _. verify-Ready (record app { is_client = true }) h)
            λ _.
              if_both (OnSome Ready) (bytes_eq arg (codes "--server"))
                (λ _. verify-Ready (record app { is_server = true }) h)
                λ _.
                  if_both (OnSome Ready) (bytes_eq arg (codes "--listen-any"))
                    (λ _. verify-Ready (record app { is_listen_any = true }) h) (λ _. tt)
  parse_loop-Ready (arg ∷ value ∷ args) app h =
      if_both (OnSome Ready) (bytes_eq arg (codes "--help")) (λ _ q. absurd cc)
        λ _.
          elim_both (OnSome Ready) (bytes_eq arg (codes "--client"))
            (parse_loop-Ready (value ∷ args) (record app { is_client = true }) h)
            (elim_both (OnSome Ready) (bytes_eq arg (codes "--server"))
              (parse_loop-Ready (value ∷ args) (record app { is_server = true }) h)
              (elim_both (OnSome Ready) (bytes_eq arg (codes "--port"))
                (with_port (read_port strtol value) (read_port-PortReady value)
                  (λ n r. parse_loop-Ready args (record app { port = n }) r))
                (elim_both (OnSome Ready) (bytes_eq arg (codes "--listen-any"))
                  (parse_loop-Ready (value ∷ args) (record app { is_listen_any = true }) h) tt)))
    where
      with_port :
          (o : Option ℤ)
          → elim o as (λ _. Type 0) [ none ↦ Unit | some n ↦ PortReady n ]
          → ((n : ℤ)
              → PortReady n
              → OnSome Ready (parse_loop strtol args (record app { port = n })))
          → OnSome Ready
              (elim o [ none ↦ none | some n ↦ parse_loop strtol args (record app { port = n }) ])
      with_port none r k = tt
      with_port (some n) r k = k n r

-- A port that a socket can have.
abbrev pub IsPort : ℤ → Type 0
IsPort p = (n : ℕ) × (p ≡ pos n) × (1 ≤ n) × (n ≤ 0xFFFF)

-- Exit code 1; or a role with a port in its range, as a client at the loopback address, as a server there or at any.
abbrev pub IsProper : Role → Type 0
IsProper (exits n) = n ≡ 1
IsProper (client a) = IsPort a.port × (a.ip ≡ 0x7F000001)
IsProper (server a) = IsPort a.port × ((a.ip ≡ 0x7F000001) ⊎ (a.ip ≡ 0))
IsProper unreachable = ⊥

-- Whatever `strtol` gives and the arguments are: the program exits with 1, or it plays one role, at a port from 1 to
-- 65535, as a client at the loopback address, as a server there or at any address. So the assert at the end of
-- `main` is never reached.
pub main-IsProper : (strtol : Bytes → Scanned) (args : List Bytes) → IsProper (main strtol args)
unfolding main parse_args server_addr client_addr
main-IsProper strtol args =
    parsed (parse_loop strtol args initial) (parse_loop-Ready strtol args initial refl)
  where
    role :
        (app : App) (help c s : Bool)
        → (help ≡ false
            → ((c && s || not (c || s)) ≡ false)
              × (n : ℕ) × (app.port ≡ pos n)
              × (1 ≤ n)
              × (n ≤ 0xFFFF))
        → IsProper (
            if help
            then exits 1
            else if c
            then client (client_addr app)
            else if s
            then server (server_addr app)
            else unreachable)
    role app true c s h = refl
    role app false true s h = let r = h refl in ((r.1, r.2, r.3, r.4), refl)
    role app false false true h =
        let r = h refl in
        (
          (r.1, r.2, r.3, r.4),
          if_both (λ (n : ℕ). (n ≡ 0x7F000001) ⊎ (n ≡ 0)) app.is_listen_any (λ _. inr refl)
              (λ _. inl refl),
        )
    role app false false false h = let r = (h refl).0 in absurd cc

    parsed :
        (o : Option App)
        → OnSome Ready o
        → IsProper (elim o [
          | none ↦ exits 1
          | some app ↦
              if app.is_help
              then exits 1
              else if app.is_client
              then client (client_addr app)
              else if app.is_server
              then server (server_addr app)
              else unreachable
        ])
    parsed none h = refl
    parsed (some app) h = role app app.is_help app.is_client app.is_server h
