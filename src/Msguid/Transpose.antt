-- ===== src/Msguid/Transpose.antt =====
-- The two conversions undo each other.
use monogon.Prelude.{ℕ, ◌≡◌, refl, [], ◌∷◌, Bytes}
use monogon.Msguid.{from_loop, to_loop, from_uuid, to_uuid}

-- The sixteen bytes of a UUID, each by name.
pub record Uuid : Type 0 where
  pub b0 : ℕ
  pub b1 : ℕ
  pub b2 : ℕ
  pub b3 : ℕ
  pub b4 : ℕ
  pub b5 : ℕ
  pub b6 : ℕ
  pub b7 : ℕ
  pub b8 : ℕ
  pub b9 : ℕ
  pub b10 : ℕ
  pub b11 : ℕ
  pub b12 : ℕ
  pub b13 : ℕ
  pub b14 : ℕ
  pub b15 : ℕ

abbrev pub bytes_of : Uuid → Bytes
bytes_of u =
    u.b0 ∷ u.b1 ∷ u.b2 ∷ u.b3 ∷ u.b4 ∷ u.b5 ∷ u.b6 ∷ u.b7 ∷ u.b8 ∷ u.b9 ∷ u.b10 ∷ u.b11 ∷ u.b12
    ∷ u.b13 ∷ u.b14 ∷ u.b15 ∷ []

-- Both conversions are inverse to each other on sixteen bytes, and the first eight bytes are those of
-- a number of four bytes and two of two bytes, each reversed.
pub from_uuid-to_uuid :
    (u : Uuid)
    → (to_uuid (from_uuid (bytes_of u)) ≡ bytes_of u)
      × (from_uuid (to_uuid (bytes_of u)) ≡ bytes_of u)
      × (from_uuid (bytes_of u)
          ≡ u.b3 ∷ u.b2 ∷ u.b1 ∷ u.b0 ∷ u.b5 ∷ u.b4 ∷ u.b7 ∷ u.b6 ∷ u.b8 ∷ u.b9 ∷ u.b10 ∷ u.b11
            ∷ u.b12 ∷ u.b13 ∷ u.b14 ∷ u.b15 ∷ [])
unfolding from_uuid to_uuid from_loop to_loop
from_uuid-to_uuid u = (refl, refl, refl)
