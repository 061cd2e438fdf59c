-- ===== src/Wire.antt =====
-- The storage core's package wire, which model/kv/ and model/table/ write and read their records with, as an interface:
-- what its Writer adds for a value, and what its Reader takes off the front. A Reader that has failed reads nothing
-- more, so a run of reads fails at the first. `Done` refuses bytes that are left.
pub mod Cells
use snapshot_engine.Shared.{
  ℕ, ◌+◌, ◌^◌, ◌≤◌, ◌<◌, ◌≡◌, refl, Option, none, some, List, [], ◌∷◌, ◌++◌, length, Bytes,
}

pub record Wire : Type 0 where
  pub u8 : ℕ → Bytes
  pub u16 : ℕ → Bytes
  pub u32 : ℕ → Bytes
  pub u64 : ℕ → Bytes
  pub uvarint : ℕ → Bytes
  pub len_bytes : Bytes → Bytes
  pub read_u8 : Bytes → Option (ℕ × Bytes)
  pub read_u16 : Bytes → Option (ℕ × Bytes)
  pub read_u32 : Bytes → Option (ℕ × Bytes)
  pub read_u64 : Bytes → Option (ℕ × Bytes)
  pub read_uvarint : Bytes → Option (ℕ × Bytes)
  -- at most so many bytes
  pub read_len_bytes : ℕ → Bytes → Option (Bytes × Bytes)

-- What is written is read back, whatever follows.
pub record Laws (w : Wire) : Type 0 where
  pub u8_read : (n : ℕ) (rest : Bytes) → n < 2 ^ 8 → w.read_u8 (w.u8 n ++ rest) ≡ some (n, rest)
  pub u16_read : (n : ℕ) (rest : Bytes) → n < 2 ^ 16 → w.read_u16 (w.u16 n ++ rest) ≡ some (n, rest)
  pub u32_read : (n : ℕ) (rest : Bytes) → n < 2 ^ 32 → w.read_u32 (w.u32 n ++ rest) ≡ some (n, rest)
  pub u64_read : (n : ℕ) (rest : Bytes) → n < 2 ^ 64 → w.read_u64 (w.u64 n ++ rest) ≡ some (n, rest)
  pub uvarint_read :
      (n : ℕ) (rest : Bytes) → n < 2 ^ 64 → w.read_uvarint (w.uvarint n ++ rest) ≡ some (n, rest)
  pub len_bytes_read :
      (limit : ℕ) (s rest : Bytes)
      → length s ≤ limit
      → w.read_len_bytes limit (w.len_bytes s ++ rest) ≡ some (s, rest)
