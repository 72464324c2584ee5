-- ===== src/Bridge/Lengths.antt =====
-- `handle_request` of firmware/i2c-bridge/src/main.rs keeps the size of the response buffer.
use opti_bridge.Prelude.{
  ℕ, ◌≡◌, refl, List, [], ◌∷◌, length, ok, err, Option-cases, Result-cases, get_or, u8, copy_at,
  length-copy_at, slice?, arith, inl, inr,
}
use opti_bridge.Protocol.{header_len, magic, status_ok, status_bad_command, status_bad_length}
use opti_bridge.Frame.{Request, encode_response}
use opti_bridge.Bridge.{I2c, handle_request, write_to, read_from, validate_i2c_request}

length-encode_response :
    (status sequence : ℕ) (payload output : List ℕ)
    → length (encode_response status sequence 0 payload output).0 ≡ length output
unfolding encode_response
length-encode_response status sequence payload output =
    let head = magic ∷ status ∷ u8 (length payload) ∷ sequence ∷ 0 ∷ [] in
    ground (
      arith,
      length-copy_at header_len payload (copy_at 0 head output),
      length-copy_at 0 head output,
    )

module _ {ℓ} {S : Type ℓ} (i2c : I2c S) where
  length-write_to :
      (r : Request) (bytes output : List ℕ) (bus : S)
      → length (write_to i2c r bytes output bus).1 ≡ length output
  unfolding write_to
  length-write_to r bytes output bus =
      elim (Option-cases (i2c.write bus (get_or r.payload 0 0) bytes).1) [
        | inl e ↦ rw (e, write_to) refl
        | inr (ok tt, e) ↦ rw (e, write_to) (length-encode_response status_ok r.sequence [] output)
        | inr (err tt, e) ↦
            rw (e, write_to) (length-encode_response status_bad_command r.sequence [] output)
      ]

  length-read_from :
      (r : Request) (count : ℕ) (output : List ℕ) (bus : S)
      → length (read_from i2c r count output bus).1 ≡ length output
  unfolding read_from
  length-read_from r count output bus =
      elim (Option-cases (i2c.read bus (get_or r.payload 0 0) count).1) [
        | inl e ↦ rw (e, read_from) refl
        | inr (ok bytes, e) ↦
            rw (e, read_from) (length-encode_response status_ok r.sequence bytes output)
        | inr (err tt, e) ↦
            rw (e, read_from) (length-encode_response status_bad_command r.sequence [] output)
      ]

  pub length-handle_request :
      (r : Request) (output : List ℕ) (bus : S)
      → length (handle_request i2c r output bus).1 ≡ length output
  unfolding handle_request
  length-handle_request r output bus =
      let read = length-read_from r (get_or r.payload 1 0) output bus in
      let bad = length-encode_response status_bad_length r.sequence [] output in
      elim (Result-cases (validate_i2c_request r)) [
        | inr (status, e) ↦
            rw (e, handle_request) (length-encode_response status r.sequence [] output)
        | inl (valid, e) ↦ elim (Option-cases (slice? r.payload 1 r.payload_len)) [
          | inl missing ↦ ground (arith, e, missing, read, bad)
          | inr (bytes, found) ↦
              ground (arith, e, found, length-write_to r bytes output bus, read, bad)
        ]
      ]
