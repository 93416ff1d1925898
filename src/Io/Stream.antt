-- ===== src/Io/Stream.antt =====
-- What the traits promise: a reader gives the bytes of one stream in their order, a writer appends
-- to one. These are the documented guarantees of `AsyncReadRent::read` and `AsyncWriteRent::write`:
-- an answer of n bytes is at most the length of the buffer, and a call that fails moves no byte. That
-- an answer of no bytes to a buffer with room ends the stream is what `read_exact` and `copy` take it for.
use monoio.Prelude.{
  Outcome, ok, panic, undefined, ℕ, ◌≤◌, ◌<◌, ◌≡◌, true, List, [], ◌++◌, length, take,
}
use monoio.Io.{Reply, success, failure, is_interrupted, AsyncReadRent, AsyncWriteRent, AsyncBufRead}

-- The answer of `read` for n bytes, where `all` is what the reader had to give
abbrev pub Answer :
    {S : Type 0} → (S → Type 0) → (S → List ℕ) → List ℕ → ℕ → Reply S (List ℕ) → Type 0
Answer Valid rest all n (ok (success bs, s)) =
    (length bs ≤ n) × (all ≡ bs ++ rest s) × Valid s × (0 < n → bs ≡ [] → all ≡ [])
Answer Valid rest all n (ok (failure e, s)) = (all ≡ rest s) × Valid s
Answer Valid rest all n panic = ⊥
Answer Valid rest all n undefined = ⊥

pub record ReadSpec {S : Type 0} (r : AsyncReadRent S) : Type 1 where
  pub Valid : S → Type 0
  -- The bytes to come, until the stream ends
  pub rest : S → List ℕ
  pub honest : (s : S) → Valid s → (n : ℕ) → Answer Valid rest (rest s) n (r.read s n)

-- A reader that is interrupted only so often: `patience` is a bound on the interruptions to come.
abbrev pub Calm : {S A : Type 0} → (S → ℕ) → ℕ → Reply S A → Type 0
Calm patience before (ok (success bs, s)) = patience s ≤ before
Calm patience before (ok (failure e, s)) =
    (patience s ≤ before) × (is_interrupted e ≡ true → patience s < before)
Calm patience before panic = Unit {0}
Calm patience before undefined = Unit {0}

pub record ReadPatience {S : Type 0} (r : AsyncReadRent S) : Type 0 where
  pub patience : S → ℕ
  pub calm : (s : S) (n : ℕ) → Calm patience (patience s) (r.read s n)

-- The answer of `write` for the bytes `bs`, where `before` is what the writer had sent
abbrev pub Accepted :
    {S : Type 0} → (S → Type 0) → (S → List ℕ) → List ℕ → List ℕ → Reply S ℕ → Type 0
Accepted Valid sent before bs (ok (success n, s)) =
    (n ≤ length bs) × (sent s ≡ before ++ take n bs) × Valid s
Accepted Valid sent before bs (ok (failure e, s)) = (sent s ≡ before) × Valid s
Accepted Valid sent before bs panic = ⊥
Accepted Valid sent before bs undefined = ⊥

-- The answer of `flush` and of `shutdown`, which send nothing more
abbrev pub Unmoved : {S A : Type 0} → (S → Type 0) → (S → List ℕ) → List ℕ → Reply S A → Type 0
Unmoved Valid sent before (ok (answer, s)) = (sent s ≡ before) × Valid s
Unmoved Valid sent before panic = ⊥
Unmoved Valid sent before undefined = ⊥

pub record WriteSpec {S : Type 0} (w : AsyncWriteRent S) : Type 1 where
  pub Valid : S → Type 0
  -- The bytes taken so far
  pub sent : S → List ℕ
  pub honest : (s : S) → Valid s → (bs : List ℕ) → Accepted Valid sent (sent s) bs (w.write s bs)
  pub honest_flush : (s : S) → Valid s → Unmoved Valid sent (sent s) (w.flush s)
  pub honest_shutdown : (s : S) → Valid s → Unmoved Valid sent (sent s) (w.shutdown s)

pub record WritePatience {S : Type 0} (w : AsyncWriteRent S) : Type 0 where
  pub patience : S → ℕ
  pub calm : (s : S) (bs : List ℕ) → Calm patience (patience s) (w.write s bs)

abbrev pub FillAnswer :
    {S : Type 0} → (S → Type 0) → (S → List ℕ) → (S → List ℕ) → List ℕ → Reply S (List ℕ) → Type 0
FillAnswer Valid rest held all (ok (success available, s)) =
    (all ≡ rest s) × (held s ≡ available) × Valid s × (available ≡ [] → all ≡ [])
FillAnswer Valid rest held all (ok (failure e, s)) = (all ≡ rest s) × Valid s
FillAnswer Valid rest held all panic = ⊥
FillAnswer Valid rest held all undefined = ⊥

abbrev pub ConsumeAnswer :
    {S : Type 0} → (S → Type 0) → (S → List ℕ) → List ℕ → List ℕ → Outcome S → Type 0
ConsumeAnswer Valid rest all front (ok s) = (all ≡ front ++ rest s) × Valid s
ConsumeAnswer Valid rest all front panic = ⊥
ConsumeAnswer Valid rest all front undefined = ⊥

-- The answers of a reader with a buffer: `fill_buf` shows what the buffer holds, nothing only at the
-- end of the stream, and `consume` takes bytes off its front.
pub record BufReadSpec {S : Type 0} (r : AsyncBufRead S) : Type 1 where
  pub Valid : S → Type 0
  pub rest : S → List ℕ
  pub held : S → List ℕ
  pub honest_fill : (s : S) → Valid s → FillAnswer Valid rest held (rest s) (r.fill_buf s)
  pub honest_consume :
      (s : S) (n : ℕ)
      → Valid s
      → n ≤ length (held s)
      → ConsumeAnswer Valid rest (rest s) (take n (held s)) (r.consume s n)

abbrev pub CalmConsume : {S : Type 0} → (S → ℕ) → ℕ → Outcome S → Type 0
CalmConsume patience before (ok s) = patience s ≤ before
CalmConsume patience before panic = Unit {0}
CalmConsume patience before undefined = Unit {0}

pub record BufReadPatience {S : Type 0} (r : AsyncBufRead S) : Type 0 where
  pub patience : S → ℕ
  pub calm_fill : (s : S) → Calm patience (patience s) (r.fill_buf s)
  pub calm_consume : (s : S) (n : ℕ) → CalmConsume patience (patience s) (r.consume s n)
