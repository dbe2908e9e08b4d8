-- ===== src/Formats/LittleEndian.antt =====
-- `to_le_bytes` and `from_le_bytes` are inverse to each other, and `read_u64_le` reads back.
use minisign_rs.Base.{
  ℕ, zero, suc, ◌+◌, ◌*◌, ◌/◌, ◌%◌, ◌^◌, ◌<◌, ◌≡◌, refl, ap, ap₂, ◌∙◌, [], ◌∷◌, arith, length,
  take_all, All, Bytes, IsByte,
}
use minisign_rs.Formats.{from_le_bytes, to_le_bytes, read_u64_le}
use minisign_rs.Errors.{ok}

pub length-to_le_bytes : (k v : ℕ) → length (to_le_bytes k v) ≡ k
unfolding to_le_bytes
length-to_le_bytes zero v = refl
length-to_le_bytes (suc k) v = ap suc (length-to_le_bytes k (v / 256))

pub to_le_bytes-IsByte : (k v : ℕ) → All IsByte (to_le_bytes k v)
unfolding to_le_bytes
to_le_bytes-IsByte zero v = tt
to_le_bytes-IsByte (suc k) v = (omega arith, to_le_bytes-IsByte k (v / 256))

pub from_le_bytes-to_le_bytes : (k v : ℕ) → v < 256 ^ k → from_le_bytes (to_le_bytes k v) ≡ v
unfolding to_le_bytes from_le_bytes
from_le_bytes-to_le_bytes zero v h = omega arith
from_le_bytes-to_le_bytes (suc k) v h =
    omega (arith, from_le_bytes-to_le_bytes k (v / 256) (omega arith))

pub to_le_bytes-from_le_bytes :
    (bs : Bytes) → All IsByte bs → to_le_bytes (length bs) (from_le_bytes bs) ≡ bs
unfolding to_le_bytes from_le_bytes
to_le_bytes-from_le_bytes [] h = refl
to_le_bytes-from_le_bytes (b ∷ bs) (hb, hbs) =
    ap₂ ◌∷◌ low (ap (to_le_bytes (length bs)) high ∙ to_le_bytes-from_le_bytes bs hbs)
  where
    low : (b + 256 * from_le_bytes bs) % 256 ≡ b
    low = omega arith

    high : (b + 256 * from_le_bytes bs) / 256 ≡ from_le_bytes bs
    high = omega arith

pub from_le_bytes-lt :
    (k : ℕ) (bs : Bytes) → length bs ≡ k → All IsByte bs → from_le_bytes bs < 256 ^ k
unfolding from_le_bytes
from_le_bytes-lt k [] e h = rw (← e) (omega arith)
from_le_bytes-lt zero (b ∷ bs) e h = absurd (omega arith)
from_le_bytes-lt (suc k) (b ∷ bs) e (hb, hbs) =
    omega (arith, from_le_bytes-lt k bs (omega arith) hbs)

-- Reading eight bytes.
pub read_u64_le_array : (bs : Bytes) → length bs ≡ 8 → read_u64_le bs ≡ ok (from_le_bytes bs)
unfolding read_u64_le
read_u64_le_array bs h = rw h (rw (take_all bs 8 (omega arith)) refl)

pub read_u64_le-to_le_bytes : (v : ℕ) → v < 2 ^ 64 → read_u64_le (to_le_bytes 8 v) ≡ ok v
read_u64_le-to_le_bytes v h =
    read_u64_le_array (to_le_bytes 8 v) (length-to_le_bytes 8 v)
    ∙ ap ok (from_le_bytes-to_le_bytes 8 v (omega arith))
