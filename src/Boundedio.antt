-- ===== src/Boundedio.antt =====
-- internal/boundedio/buffer.go: the output of a child process, kept up to a limit. Bytes are numbers.
mod Examples
pub mod Prefix
use secrets_broker.Base.{
  ℕ, zero, suc, ◌+◌, ◌-◌, Bool, true, false, List, [], ◌∷◌, ◌++◌, length, ltb, if◌then◌else◌,
}

pub record Buffer : Type 0 where
  pub buf : List ℕ
  pub limit : ℕ
  pub exceeded : Bool

abbrev pub new_buffer : ℕ → Buffer
new_buffer limit = record { buf = []; limit = limit; exceeded = false }

-- `p[:n]`, for `n` up to the length.
unfoldable pub take : ℕ → List ℕ → List ℕ
take zero xs = []
take (suc n) [] = []
take (suc n) (x ∷ xs) = x ∷ take n xs

-- `Write`: the number of bytes that it tells, and the buffer. `remaining < len(p)` and `remaining > 0`
-- are written with `len` on the other side, since Go's `remaining` may be negative.
unfoldable pub write : List ℕ → Buffer → ℕ × Buffer
write p b =
    if ltb b.limit (length b.buf + length p)
    then (
      length p,
      record b {
        buf =
            (if ltb (length b.buf) b.limit
              then b.buf ++ take (b.limit - length b.buf) p
              else b.buf);
        exceeded = true;
      },
    )
    else (length p, record b { buf = b.buf ++ p })

-- The writes of a process, one after the other.
unfoldable pub write_all : List (List ℕ) → Buffer → Buffer
write_all [] b = b
write_all (p ∷ ps) b = write_all ps (write p b).1
