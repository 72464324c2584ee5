-- ===== src/Bridge/Sessions/Stream.antt =====
-- The bytes of a terminal as one stream: how it is cut into packets does not matter, and each request
-- in it is answered in turn.
use opti_bridge.Prelude.{ℕ, ◌≡◌, refl, sym, ◌∙◌, List, [], ◌∷◌, ◌++◌}
use opti_bridge.Frame.{Parser}
use opti_bridge.Bridge.{I2c}
use opti_bridge.Bridge.Sessions.{
  Cdc, Ended, listens, resets, panics, serve_byte, then_next, serve_bytes,
}

pub then_next_assoc {ℓ} :
    {S : Type ℓ} (f g : Parser → List ℕ → S → Ended × S) (r : Ended × S)
    → then_next g (then_next f r) ≡ then_next (λ p output s. then_next g (f p output s)) r
then_next_assoc f g (listens p output, s) = refl
then_next_assoc f g (resets, s) = refl
then_next_assoc f g (panics, s) = refl

pub then_next_cong {ℓ} :
    {S : Type ℓ} (f g : Parser → List ℕ → S → Ended × S)
    → ((p : Parser) (output : List ℕ) (s : S) → f p output s ≡ g p output s)
    → (r : Ended × S) → then_next f r ≡ then_next g r
then_next_cong f g same (listens p output, s) = same p output s
then_next_cong f g same (resets, s) = refl
then_next_cong f g same (panics, s) = refl

module _ {ℓ} {S : Type ℓ} (i2c : I2c S) (cdc : Cdc S) where
  -- Bytes that arrive in two packets are served as those of one.
  pub serve_bytes-append :
      (bytes more : List ℕ) (p : Parser) (output : List ℕ) (s : S)
      → serve_bytes i2c cdc (bytes ++ more) p output s
        ≡ then_next (serve_bytes i2c cdc more) (serve_bytes i2c cdc bytes p output s)
  unfolding serve_bytes
  serve_bytes-append [] more p output s = refl
  serve_bytes-append (byte ∷ bytes) more p output s =
      let first = serve_byte i2c cdc p byte output s in
      then_next_cong _ _ (serve_bytes-append bytes more) first
      ∙ sym (then_next_assoc (serve_bytes i2c cdc bytes) (serve_bytes i2c cdc more) first)
