-- ===== src/Serializer/Iterator.antt =====
-- shared/Serializer.cpp: SerializerIterator, a buffer with a reading position `mPos`. A method is a
-- function of the buffer and the position that gives the value and the new position, or throws and
-- leaves the position alone.
pub mod Messages
use bytev.Prelude.{ℕ, ◌+◌, Option, none, some, List, Result, ok, throws, runtime, ◌>>=◌}
use bytev.Serializer.Buffer.{
  Bytes, get8, get16, get32, get64, get128, get160, get256, get_raw_or_empty,
}
use bytev.Serializer.Vl.{get_vl}
use bytev.Serializer.Tagged.{TaggedListItem, get_tagged_list}

-- `if (!mSerializer.get(val, mPos)) throw std::runtime_error(...); mPos += n; return val;`
abbrev pub advance {ℓ} : {A : Type ℓ} → Option A → ℕ → ℕ → Result (A × ℕ)
advance none pos n = throws runtime
advance (some a) pos n = ok (a, pos + n)

abbrev pub advance_by {ℓ} : {A : Type ℓ} → Option (A × ℕ) → ℕ → Result (A × ℕ)
advance_by none pos = throws runtime
advance_by (some (a, n)) pos = ok (a, pos + n)

unfoldable pub next8 : Bytes → ℕ → Result (ℕ × ℕ)
next8 d pos = advance (get8 d pos) pos 1

unfoldable pub next16 : Bytes → ℕ → Result (ℕ × ℕ)
next16 d pos = advance (get16 d pos) pos 2

unfoldable pub next32 : Bytes → ℕ → Result (ℕ × ℕ)
next32 d pos = advance (get32 d pos) pos 4

unfoldable pub next64 : Bytes → ℕ → Result (ℕ × ℕ)
next64 d pos = advance (get64 d pos) pos 8

unfoldable pub next128 : Bytes → ℕ → Result (Bytes × ℕ)
next128 d pos = advance (get128 d pos) pos 16

unfoldable pub next160 : Bytes → ℕ → Result (Bytes × ℕ)
next160 d pos = advance (get160 d pos) pos 20

unfoldable pub next256 : Bytes → ℕ → Result (Bytes × ℕ)
next256 d pos = advance (get256 d pos) pos 32

unfoldable pub next_vl : Bytes → ℕ → Result (Bytes × ℕ)
next_vl d pos = do r ← get_vl d pos; advance_by r pos

unfoldable pub next_tagged_list : Bytes → ℕ → Result (List TaggedListItem × ℕ)
next_tagged_list d pos = do r ← get_tagged_list d pos; advance_by r pos

-- The position moves on also where the buffer is too short and the result empty.
unfoldable pub next_raw : Bytes → ℕ → ℕ → Bytes × ℕ
next_raw d pos n = (get_raw_or_empty d pos n, pos + n)
