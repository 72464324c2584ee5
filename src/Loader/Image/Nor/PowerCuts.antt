-- ===== src/Loader/Image/Nor/PowerCuts.antt =====
-- A power cut within `execute_pending`: the flash takes some calls more, a write at which the power
-- goes is torn, and after that nothing changes. Nor/Recovery has what the next boot
-- finds then.
use opti_bridge.Prelude.{
  window, ℕ, zero, suc, ◌+◌, ◌≤◌, ◌<◌, ◌≡◌, refl, ◌⊎◌, Option, none, some, List, length, get_or,
  Result, ok, err,
}
use opti_bridge.Crc.Detect.{IsBytes}
use opti_bridge.Loader.{BpfFlash}
use opti_bridge.Loader.Image.Nor.{IsNor}

-- What a write at which the power goes leaves: cells outside its range as they were, and erased cells
-- that it was to leave erased.
pub record IsTear {ℓ} {S : Type ℓ} (tear : S → ℕ → List ℕ → S) (peek : S → ℕ → ℕ) : Type ℓ where
  pub outside :
      (s : S) (offset : ℕ) (bytes : List ℕ) (i : ℕ)
      → (i < offset) ⊎ (offset + length bytes ≤ i)
      → peek (tear s offset bytes) i ≡ peek s i
  pub unprogrammed :
      (s : S) (offset : ℕ) (bytes : List ℕ) (i : ℕ)
      → get_or bytes i 0 ≡ 0xff
      → peek s (offset + i) ≡ 0xff
      → peek (tear s offset bytes) (offset + i) ≡ 0xff

-- The calls that the flash still takes with the power on, or none with the power off.
abbrev pub Powered {ℓ} : Type ℓ → Type ℓ
Powered S = S × Option ℕ

module _ {ℓ} {S : Type ℓ} (flash : BpfFlash S) (tear : S → ℕ → List ℕ → S) where
  unfoldable pub read_cut : Powered S → ℕ → ℕ → Powered S × Result (List ℕ) (Unit {0})
  read_cut (s, none) offset n = ((s, none), err tt)
  read_cut (s, some zero) offset n = ((s, none), err tt)
  read_cut (s, some (suc left)) offset n =
      let (s', answer) = flash.read s offset n in ((s', some left), answer)

  unfoldable pub write_cut : Powered S → ℕ → List ℕ → Powered S × Result (Unit {0}) (Unit {0})
  write_cut (s, none) offset bytes = ((s, none), err tt)
  write_cut (s, some zero) offset bytes = ((tear s offset bytes, none), err tt)
  write_cut (s, some (suc left)) offset bytes =
      let (s', answer) = flash.write s offset bytes in ((s', some left), answer)

  -- An erase is not torn.
  unfoldable pub erase_cut : Powered S → ℕ → ℕ → Powered S × Result (Unit {0}) (Unit {0})
  erase_cut (s, none) from to = ((s, none), err tt)
  erase_cut (s, some zero) from to = ((s, none), err tt)
  erase_cut (s, some (suc left)) from to =
      let (s', answer) = flash.erase s from to in ((s', some left), answer)

  unfoldable pub power_cut : BpfFlash (Powered S)
  power_cut = record { read = read_cut; write = write_cut; erase = erase_cut }

module _ {ℓ} {S : Type ℓ} {flash : BpfFlash S} {tear : S → ℕ → List ℕ → S} {peek : S → ℕ → ℕ}
    (nor : IsNor flash peek) (tears : IsTear tear peek) where
  -- Such a flash is a NOR flash too, whose calls may fail.
  pub power_cut-IsNor : IsNor (power_cut flash tear) (λ p. peek p.0)
  unfolding power_cut read_cut write_cut erase_cut
  power_cut-IsNor = record {
    read_ok = read_ok;
    read_keeps = read_keeps;
    write_ok = write_ok;
    write_outside = write_outside;
    erase_ok = erase_ok;
  }
    where
      read_ok :
          (p : Powered S) (offset n : ℕ) (bytes : List ℕ)
          → (read_cut flash tear p offset n).1 ≡ ok bytes
          → bytes ≡ window (peek p.0) offset n
      read_ok (s, none) offset n bytes e = absurd (cc e)
      read_ok (s, some zero) offset n bytes e = absurd (cc e)
      read_ok (s, some (suc left)) offset n bytes e = nor.read_ok s offset n bytes e

      read_keeps :
          (p : Powered S) (offset n : ℕ) → peek (read_cut flash tear p offset n).0.0 ≡ peek p.0
      read_keeps (s, none) offset n = refl
      read_keeps (s, some zero) offset n = refl
      read_keeps (s, some (suc left)) offset n = nor.read_keeps s offset n

      write_ok :
          (p : Powered S) (offset : ℕ) (bytes : List ℕ)
          → IsBytes bytes
          → ((i : ℕ) → offset ≤ i → i < offset + length bytes → peek p.0 i ≡ 0xff)
          → (write_cut flash tear p offset bytes).1 ≡ ok tt
          → window (peek (write_cut flash tear p offset bytes).0.0) offset (length bytes) ≡ bytes
      write_ok (s, none) offset bytes fine blank e = absurd (cc e)
      write_ok (s, some zero) offset bytes fine blank e = absurd (cc e)
      write_ok (s, some (suc left)) offset bytes fine blank e =
          nor.write_ok s offset bytes fine blank e

      write_outside :
          (p : Powered S) (offset : ℕ) (bytes : List ℕ) (i : ℕ)
          → (i < offset) ⊎ (offset + length bytes ≤ i)
          → peek (write_cut flash tear p offset bytes).0.0 i ≡ peek p.0 i
      write_outside (s, none) offset bytes i out = refl
      write_outside (s, some zero) offset bytes i out = tears.outside s offset bytes i out
      write_outside (s, some (suc left)) offset bytes i out = nor.write_outside s offset bytes i out

      erase_ok :
          (p : Powered S) (from to i : ℕ)
          → (erase_cut flash tear p from to).1 ≡ ok tt
          → from ≤ i
          → i < to
          → peek (erase_cut flash tear p from to).0.0 i ≡ 0xff
      erase_ok (s, none) from to i e lo hi = absurd (cc e)
      erase_ok (s, some zero) from to i e lo hi = absurd (cc e)
      erase_ok (s, some (suc left)) from to i e lo hi = nor.erase_ok s from to i e lo hi
