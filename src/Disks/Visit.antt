-- ===== src/Disks/Visit.antt =====
-- src/main/c/paisa-fleet/FindFullDisks.c, `visitDevice`: the command for one device.
use unspecified_garbage.Common.{
  ℕ, zero, suc, ◌+◌, ◌*◌, ◌/◌, ◌%◌, ◌≤◌, ◌<◌, ◌≡◌, ◌↔◌, ◌⊎◌, refl, arith, Bool, true, false, not,
  ◌&&◌, List, [], ◌∷◌, ◌++◌, Option, none, some, leb, ltb, lt→ltb, if◌then◌else◌, if_both, Bytes,
  bytes_eq, codes, length, length-append, take, ℤ, pos, negsuc,
}
use unspecified_garbage.Disks.Rows.{eddie_name_cap, hostname_cap}

-- "%d", for a number of at most `fuel` digits.
unfoldable pub decimal : ℕ → ℕ → Bytes
decimal zero n = []
decimal (suc fuel) n =
    let front = decimal fuel (n / 10) in
    if ltb n 10 then (n + b'0') ∷ [] else front ++ ((n % 10 + b'0') ∷ [])

unfoldable pub show_int : ℤ → Bytes
unfolding decimal
show_int (pos n) = decimal 10 n
show_int (negsuc n) = b'-' ∷ decimal 10 (n + 1)

unfoldable pub at_eddie : Bytes
at_eddie =
    codes
      "true && HOSTNAME=$(hostname|sed 's_.pnet.ch__') && STAGE=$PAISA_ENV && printf \"remoteEddieName=$HOSTNAME, remoteStage=$STAGE\\n\" && if test \"$(echo ${HOSTNAME}|sed -E 's_^vted_teddie_g')\" != \""

unfoldable pub wrong_host : Bytes
wrong_host = codes "\"; then true && echo wrong host. Want "

unfoldable pub ssh : Bytes
ssh =
    codes
      " found $HOSTNAME && false ;fi && ssh -oStrictHostKeyChecking=no -oUserKnownHostsFile=/dev/null -p"

unfoldable pub at_host : Bytes
at_host =
    codes
      " -- sh -c 'true && HOSTNAME=$(hostname|sed '\"'\"'s_.isa.localdomain__'\"'\"') && STAGE=$PAISA_ENV && printf \"remoteHostname=$HOSTNAME, remoteStage=$STAGE\\n\" && df || true'"

-- `strncmp("fook-", hostname, 5) ? hostname : "fook"`
unfoldable pub login_host : Bytes → Bytes
unfolding bytes_eq
login_host host = if bytes_eq (take 5 host) (codes "fook-") then codes "fook" else host

-- The command that is run on the first machine; the names are texts without a NUL.
unfoldable pub eddie_cmd : Bytes → ℤ → Bytes → Bytes → Bytes
unfolding show_int login_host
eddie_cmd user port eddie host =
    at_eddie
    ++ (eddie
        ++ (wrong_host
            ++ (eddie
                ++ (ssh
                    ++ (show_int port
                        ++ (b' ' ∷ (user ++ (b'@' ∷ (login_host host ++ at_host)))))))))

unfoldable pub user_at_eddie : Bytes → Bytes → Bytes
user_at_eddie user eddie = user ++ (b'@' ∷ eddie)

unfoldable pub child_argv : Bytes → ℤ → Bytes → Bytes → List Bytes
unfolding eddie_cmd user_at_eddie
child_argv user port eddie host =
    codes "ssh"
    ∷ codes "-oRemoteCommand=none"
    ∷ codes "-oStrictHostKeyChecking=no"
    ∷ codes "-oUserKnownHostsFile=/dev/null"
    ∷ codes "-oConnectTimeout=4"
    ∷ codes "-p"
    ∷ show_int port
    ∷ user_at_eddie user eddie
    ∷ codes "--"
    ∷ codes "sh"
    ∷ codes "-c"
    ∷ eddie_cmd user port eddie host
    ∷ []

abbrev pub is_port : ℤ → Bool
is_port (pos n) = leb 1 n && leb n 0xFFFF
is_port (negsuc n) = false

-- The argument list of the child; `none` where an assert fails.
unfoldable pub visit_device : Bytes → ℤ → Bytes → Bytes → Option (List Bytes)
visit_device user port eddie host =
    if leb 2048 (length (eddie_cmd user port eddie host))
    then none
    else if not (is_port port)
    then none
    else if leb 6 (length (show_int port))
    then none
    else if leb 64 (length (user_at_eddie user eddie))
    then none
    else some (child_argv user port eddie host)

length-decimal : (fuel n : ℕ) → length (decimal fuel n) ≤ fuel
unfolding decimal
length-decimal zero n = omega arith
length-decimal (suc fuel) n =
    if_both (λ (bs : Bytes). length bs ≤ suc fuel) (ltb n 10) (λ _. omega arith)
      (λ _. omega (
        arith,
        length-append (decimal fuel (n / 10)) ((n % 10 + b'0') ∷ []),
        length-decimal fuel (n / 10),
      ))

length-decimal_one : (fuel n : ℕ) → n < 10 → length (decimal fuel n) ≤ 1
unfolding decimal
length-decimal_one zero n h = omega arith
length-decimal_one (suc fuel) n h = rw (lt→ltb n 10 h) (omega arith)

-- A bound on the digits below one number gives one for the numbers below ten times that.
length-decimal_next :
    (b k : ℕ)
    → ((fuel n : ℕ) → n < b → length (decimal fuel n) ≤ k)
    → 1 ≤ k
    → (fuel n : ℕ) → n < b * 10
    → length (decimal fuel n) ≤ k + 1
unfolding decimal
length-decimal_next b k below p zero n h = omega arith
length-decimal_next b k below p (suc fuel) n h =
    let front = below fuel (n / 10) (omega arith) in
    if_both (λ (bs : Bytes). length bs ≤ k + 1) (ltb n 10) (λ _. omega arith)
      (λ _. omega (arith, length-append (decimal fuel (n / 10)) ((n % 10 + b'0') ∷ [])))

length-decimal_five : (fuel n : ℕ) → n < 100000 → length (decimal fuel n) ≤ 5
length-decimal_five fuel n h =
    length-decimal_next 10000 4
      (length-decimal_next 1000 3
        (length-decimal_next 100 2 (length-decimal_next 10 1 length-decimal_one (omega arith))
          (omega arith))
        (omega arith))
      (omega arith) fuel n h

length-at_eddie : length at_eddie ≡ 191
unfolding at_eddie
length-at_eddie = refl

length-wrong_host : length wrong_host ≡ 38
unfolding wrong_host
length-wrong_host = refl

length-ssh : length ssh ≡ 97
unfolding ssh
length-ssh = refl

length-at_host : length at_host ≡ 168
unfolding at_host
length-at_host = refl

length-login_host : (host : Bytes) → length host ≤ 26 → length (login_host host) ≤ 26
unfolding login_host
length-login_host host h =
    if_both (λ (bs : Bytes). length bs ≤ 26) (bytes_eq (take 5 host) (codes "fook-"))
      (λ _. omega arith) (λ _. h)

length-eddie_cmd :
    (user : Bytes) (port : ℤ) (eddie host : Bytes)
    → length (eddie_cmd user port eddie host)
      ≡ length user
        + length (show_int port)
        + length eddie
        + length eddie
        + length (login_host host)
        + 496
unfolding eddie_cmd
length-eddie_cmd user port eddie host =
    simp (length-append, length-at_eddie, length-wrong_host, length-ssh, length-at_host)
      (omega arith)

length-show_port : (port : ℤ) → is_port port ≡ true → length (show_int port) ≤ 5
unfolding show_int
length-show_port (pos n) h = length-decimal_five 10 n (ground arith)
length-show_port (negsuc n) h = absurd cc

length-user_at_eddie :
    (user eddie : Bytes) → length (user_at_eddie user eddie) ≡ length user + 1 + length eddie
unfolding user_at_eddie
length-user_at_eddie user eddie = omega (arith, length-append user (b'@' ∷ eddie))

-- With names that fit the device's buffers, the asserts hold, and the child has its argument list,
-- exactly where the port is from 1 to 65535 and the user's name, the '@' and the name of the first
-- machine have fewer than 64 bytes.
pub visit_device_iff :
    (user : Bytes) (port : ℤ) (eddie host : Bytes)
    → length eddie < eddie_name_cap
    → length host < hostname_cap
    → (visit_device user port eddie host ≡ some (child_argv user port eddie host))
      ↔ ((is_port port ≡ true) × (length user + 1 + length eddie < 64))
unfolding visit_device
visit_device_iff user port eddie host e h =
    let l = length-eddie_cmd user port eddie host in
    let d = length-login_host host (omega arith) in
    let u = length-user_at_eddie user eddie in
    (λ v. ground (arith, u), λ p. ground (arith, u, l, d, length-show_port port p.0))

-- The asserts fail, or the child has its argument list.
pub visit_device-cases :
    (user : Bytes) (port : ℤ) (eddie host : Bytes)
    → (visit_device user port eddie host ≡ none)
      ⊎ (visit_device user port eddie host ≡ some (child_argv user port eddie host))
unfolding visit_device
visit_device-cases user port eddie host = ground arith
