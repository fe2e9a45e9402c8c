-- ===== src/Disks/Output.antt =====
-- src/main/c/paisa-fleet/FindFullDisks.c, `examineDeviceResult`: what a device wrote goes to a file.
use unspecified_garbage.Common.{
  up_to_nul, ℕ, ◌+◌, ◌≤◌, ◌<◌, ◌≡◌, ◌≢◌, ◌↔◌, arith, Bool, true, not, ◌∷◌, ◌++◌, leb, ltb, ◌==◌,
  if◌then◌else◌, Bytes, codes, length, length-append,
}
use unspecified_garbage.Disks.State.{Device, held, below, stdout_buf_cap}

-- Nothing to do; a file of a name with a content; an assert that fails; or more is to be written than the array has.
pub data Examined : Type 0 where
  nothing : Examined
  file : Bytes → Bytes → Examined
  failed : Examined
  beyond : Examined

-- `sizeof"result/eddie12345-lunkwill-1234567890123456.log"`
abbrev out_name_cap : ℕ
out_name_cap = 48

unfoldable pub out_name : Device → Bytes
out_name d =
    codes "result/" ++ (up_to_nul d.eddie_name ++ (b'-' ∷ (up_to_nul d.hostname ++ codes ".log")))

-- The output, where `stdoutBuf_len` is its length.
unfoldable write_output : Bool → ℕ → Device → Bytes → Examined
write_output opened written d bytes =
    if length bytes == 0
    then nothing
    else if leb out_name_cap (length (out_name d))
    then failed
    else if not opened
    then failed
    else if ltb stdout_buf_cap (length bytes)
    then beyond
    else if written == length bytes
    then file (out_name d) bytes
    else failed

-- Whether `fopen` gives a file, and how much `fwrite` writes, are given.
unfoldable pub examine_device : Bool → ℕ → Device → Examined
unfolding write_output
examine_device opened written d = elim d.stdout [
  | below n ↦ nothing
  | held bytes ↦ write_output opened written d bytes
]

length-out_name :
    (d : Device)
    → length (out_name d) ≡ length (up_to_nul d.eddie_name) + length (up_to_nul d.hostname) + 12
unfolding out_name
length-out_name d = simp length-append (omega arith)

-- Where the output is within its array, and with a file that opens and takes what is written: there is
-- nothing to do exactly where there is no output; the output is written to the file that is named after
-- the device exactly where there is output and the two names together have fewer than 36 bytes; and the
-- program aborts exactly where there is output and they have 36 bytes or more, which names that fit
-- their buffers can have.
pub examine_device_iff :
    (d : Device) (bytes : Bytes)
    → d.stdout ≡ held bytes
    → length bytes ≤ stdout_buf_cap
    → ((examine_device true (length bytes) d ≡ nothing) ↔ (length bytes ≡ 0))
      × ((examine_device true (length bytes) d ≡ file (out_name d) bytes) ↔ (
          (length bytes ≢ 0)
          × (length (up_to_nul d.eddie_name) + length (up_to_nul d.hostname) < 36)))
      × ((examine_device true (length bytes) d ≡ failed) ↔ (
          (length bytes ≢ 0)
          × (36 ≤ length (up_to_nul d.eddie_name) + length (up_to_nul d.hostname))))
unfolding examine_device
examine_device_iff d bytes e h =
    let l = length-out_name d in
    (
      (λ q. ground (arith, l), λ q. ground (arith, l)),
      (λ q. ground (arith, l), λ q. ground (arith, l)),
      (λ q. ground (arith, l), λ q. ground (arith, l)),
    )
