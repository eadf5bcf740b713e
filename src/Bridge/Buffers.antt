-- ===== src/Bridge/Buffers.antt =====
-- A buffer that crosses the bridge between the two languages arrives, and its block is freed.
use keynoxis.Base.{
  ℕ, true, false, [], ◌∷◌, Option, none, some, ◌==◌, leb, Nat_eq, ok, Bytes, length, take, ◌≡◌,
  refl, ap, arith, eq_self, ◌∙◌,
}
use keynoxis.Swift.{Heap, Malloc, Reply, allocated, copy_bytes, null}
use keynoxis.Bridge.{block_at, without_block, take_buffer, took_key}

-- An address that a block may be put at.
abbrev pub FreshAt : Heap → Option ℕ → Type 0
FreshAt heap none = Unit
FreshAt heap (some address) = (block_at address heap ≡ none) × ((address == 0) ≡ false)

-- malloc returns an address that is not null and at which no block is.
abbrev pub IsFresh : Malloc → Type 0
IsFresh malloc = (heap : Heap) (size : ℕ) → FreshAt heap (malloc heap size)

-- The block for a buffer: none for an empty one.
abbrev pub requested : Malloc → Bytes → Heap → Option ℕ
requested malloc [] heap = none
requested malloc (b ∷ bs) heap = malloc heap (length (b ∷ bs))

-- What is left of a buffer when there is no memory for it.
abbrev pub kept : Bytes → Option ℕ → Bytes
kept contents none = []
kept contents (some address) = contents

abbrev pub arrived : Malloc → Bytes → Heap → Bytes
arrived malloc contents heap = kept contents (requested malloc contents heap)

take-length : (bs : Bytes) → take (length bs) bs ≡ bs
take-length [] = refl
take-length (b ∷ bs) = ap (◌∷◌ b) (take-length bs)

leb_self : (n : ℕ) → leb n n ≡ true
leb_self n = ground arith

take_buffer_at :
    (a : ℕ) (contents : Bytes) (heap : Heap)
    → (a == 0) ≡ false
    → block_at a heap ≡ some contents
    → take_buffer (record { pointer = a; length = length contents }) heap
      ≡ some (contents, without_block a heap)
take_buffer_at a contents heap h k =
    rw (h, k, leb_self (length contents), take-length contents) refl

block_at_here : (a : ℕ) (c : Bytes) (heap : Heap) → block_at a ((a, c) ∷ heap) ≡ some c
block_at_here a c heap = rw (eq_self a) refl

without_block_here : (a : ℕ) (c : Bytes) (heap : Heap) → without_block a ((a, c) ∷ heap) ≡ heap
without_block_here a c heap = rw (eq_self a) refl

-- The block of a buffer lies under that of the next one.
other_address :
    (a b : ℕ) (c : Bytes) (heap : Heap) → block_at b ((a, c) ∷ heap) ≡ none → (b == a) ≡ false
other_address a b c heap h = ground (arith, h)

pub take_buffer_here :
    (c : Bytes) (heap : Heap) (o : Option ℕ) (malloc : Malloc)
    → FreshAt heap o
    → take_buffer (allocated malloc c heap o).0 (allocated malloc c heap o).1
      ≡ some (kept c o, heap)
take_buffer_here c heap none malloc h = refl
take_buffer_here c heap (some a) malloc h =
    take_buffer_at a c ((a, c) ∷ heap) h.1 (block_at_here a c heap)
    ∙ ap (λ rest. some (c, rest)) (without_block_here a c heap)

take_buffer_under :
    (a b : ℕ) (c d : Bytes) (heap : Heap)
    → (a == 0) ≡ false
    → block_at b ((a, c) ∷ heap) ≡ none
    → take_buffer (record { pointer = a; length = length c }) ((b, d) ∷ (a, c) ∷ heap)
      ≡ some (c, (b, d) ∷ heap)
take_buffer_under a b c d heap h k =
    take_buffer_at a c ((b, d) ∷ (a, c) ∷ heap) h
      (rw (other_address a b c heap k) (block_at_here a c heap))
    ∙ ap (λ rest. some (c, rest))
        (rw (other_address a b c heap k) (ap (λ r. (b, d) ∷ r) (without_block_here a c heap)))

module _ (c d : Bytes) (heap : Heap) (malloc : Malloc) where
  -- Two buffers, one after the other.
  abbrev two : Option ℕ → Option ℕ → Reply
  two o p = record {
    status = 0;
    output = (allocated malloc c heap o).0;
    public_key = (allocated malloc d (allocated malloc c heap o).1 p).0;
    error = null;
    heap = (allocated malloc d (allocated malloc c heap o).1 p).1;
  }

  -- The second block stays where it is when the first is freed.
  block_at_below : (a b : ℕ) → block_at b ((a, c) ∷ heap) ≡ none → block_at b heap ≡ none
  block_at_below a b h = ground (arith, other_address a b c heap h, h)

  pub took_key-two :
      (o p : Option ℕ)
      → FreshAt heap o
      → FreshAt (allocated malloc c heap o).1 p
      → took_key (two o p) ≡ some (ok (kept c o, kept d p), heap)
  took_key-two none p h k = rw (take_buffer_here d heap p malloc k) refl
  took_key-two (some a) none h k = rw (take_buffer_here c heap (some a) malloc h) refl
  took_key-two (some a) (some b) h k =
      rw
        (
          take_buffer_under a b c d heap h.1 k.0,
          take_buffer_here d heap (some b) malloc (block_at_below a b k.0, k.1),
        )
        refl

module _ (malloc : Malloc) where
  pub copy_bytes-allocated :
      (c : Bytes) (heap : Heap)
      → copy_bytes malloc c heap ≡ allocated malloc c heap (requested malloc c heap)
  copy_bytes-allocated [] heap = refl
  copy_bytes-allocated (b ∷ bs) heap = refl

  pub requested-FreshAt :
      IsFresh malloc → (c : Bytes) (heap : Heap) → FreshAt heap (requested malloc c heap)
  requested-FreshAt fresh [] heap = tt
  requested-FreshAt fresh (b ∷ bs) heap = fresh heap (length (b ∷ bs))

  pub take_buffer-copy_bytes :
      IsFresh malloc
      → (c : Bytes) (heap : Heap)
      → take_buffer (copy_bytes malloc c heap).0 (copy_bytes malloc c heap).1
        ≡ some (arrived malloc c heap, heap)
  take_buffer-copy_bytes fresh c heap =
      rw (copy_bytes-allocated c heap)
        (take_buffer_here c heap (requested malloc c heap) malloc (requested-FreshAt fresh c heap))
