-- ===== src/Http/Reading.antt =====
-- CompressReader of internal/service/compresser.go: a request body that is read through gzip.
use metrify.Base.{ℕ, Bytes, Option, none, some, ◌⊎◌, inl, inr}
use metrify.Failure.{Failure}

-- Bodies `B`, which are io.ReadClosers, and the gzip.Readers `G` on them; `W` is the state of
-- both. A Read is given the length of its buffer.
pub record Readers (B G W : Type 0) : Type 0 where
  pub new_reader : B → W → (Failure ⊎ G) × W
  pub read_gzip : G → ℕ → W → (Bytes × Option Failure) × W
  pub close_gzip : G → W → Option Failure × W
  pub close_body : B → W → Option Failure × W

pub record CompressReader (B G : Type 0) : Type 0 where
  pub body : B
  pub gz : G

module _ {B G W : Type 0} (readers : Readers B G W) where
  abbrev made : B → Failure ⊎ G → Failure ⊎ CompressReader B G
  made r (inl e) = inl e
  made r (inr zr) = inr (record { body = r; gz = zr })

  unfoldable pub new_compress_reader : B → W → (Failure ⊎ CompressReader B G) × W
  new_compress_reader r w = let (zr, w') = readers.new_reader r w in (made r zr, w')

  unfoldable pub read : CompressReader B G → ℕ → W → (Bytes × Option Failure) × W
  read z n w = readers.read_gzip z.gz n w

  -- The body is left open if the gzip reader reports an error.
  abbrev close_after : CompressReader B G → Option Failure → W → Option Failure × W
  close_after z (some e) w = (some e, w)
  close_after z none w = readers.close_body z.body w

  unfoldable pub close : CompressReader B G → W → Option Failure × W
  close z w = let (e, w') = readers.close_gzip z.gz w in close_after z e w'
