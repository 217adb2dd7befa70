-- ===== src/Tokenizer/Boxes.antt =====
-- src/tokenizer.cpp: the class over the C interface it declares, with the interface's memory: a
-- tokenizer goes by a pointer to the box that tokenizer/src/lib.rs made, from `load` to `~Tokenizer`.
pub mod Lifetime
use cyborgdb_embed.Prelude.{
  different, ℕ, suc, ◌≤◌, ◌≡◌, ◌≢◌, refl, sym, ap, subst, ◌∙◌, inl, inr, List, ◌++◌, Option, none,
  some, Option-cases, Text, codes, Memory, write, write_hit, write_miss, ◌==◌, ==_iff, Bool-cases,
  arith,
}
use cyborgdb_embed.Status.{Status, success, tokenizer_failed}
use cyborgdb_embed.Resolve.Download.{Disk}
use cyborgdb_embed.Tokenizer.Shim.{Library, Handle, EncodeResult, tokenizer_new, tokenizer_encode}
use cyborgdb_embed.Tokenizer.{Tokenizer, load, encode_text, c_string, finish_encode}

-- The functions behind `extern "C"`. A null pointer is `none`; a call on a pointer that is not to a
-- box is undefined, which `encode` gives as `none`.
pub record Interface : Type 1 where
  pub Memory_of : Type 0
  pub cyborgdb_tokenizer_new : Option (List ℕ) → ℕ → Memory_of → Option ℕ × Memory_of
  pub cyborgdb_tokenizer_free : Option ℕ → Memory_of → Memory_of
  pub cyborgdb_tokenizer_encode :
      Option ℕ → Option Text → Memory ℕ → ℕ → ℕ → Memory_of → Option EncodeResult

-- The class's fields.
pub record Object : Type 0 where
  pub handle_ : ℕ
  pub max_tokens_ : ℕ

module _ (c : Interface) where
  -- After `cyborgdb_tokenizer_new`.
  unfoldable pub finish_new :
      Text → ℕ → Option ℕ × c.Memory_of → Status × Option Object × c.Memory_of
  finish_new path max_tokens (none, heap) = (
    record { code = tokenizer_failed; message = path ++ codes " is not a valid tokenizer" },
    none,
    heap,
  )
  finish_new path max_tokens (some handle, heap) =
      (success, some (record { handle_ = handle; max_tokens_ = max_tokens }), heap)

  -- `Tokenizer::load`.
  unfoldable pub load_object : Disk → Text → ℕ → c.Memory_of → Status × Option Object × c.Memory_of
  unfolding finish_new
  load_object disk path max_tokens heap = elim (disk path) [
    | none ↦
        (record { code = tokenizer_failed; message = codes "cannot read " ++ path }, none, heap)
    | some json ↦ finish_new path max_tokens (c.cyborgdb_tokenizer_new (some json) max_tokens heap)
  ]

  -- `Tokenizer::encode`.
  unfoldable pub encode_object : Object → Text → Text → c.Memory_of → Option (Status × List ℕ)
  unfolding finish_encode c_string
  encode_object o prefix text heap =
      elim (c.cyborgdb_tokenizer_encode (some o.handle_) (some (c_string (prefix ++ text))) (λ _. 0)
        o.max_tokens_ 0 heap) [ none ↦ none | some r ↦ some (finish_encode r) ]

  -- `Tokenizer::~Tokenizer`.
  unfoldable pub destroy_object : Object → c.Memory_of → c.Memory_of
  destroy_object o heap = c.cyborgdb_tokenizer_free (some o.handle_) heap

module _ (lib : Library) where
  -- The boxes, with the address of the next.
  pub record Heap : Type 0 where
    pub boxes : Memory (Option (Handle lib))
    pub next : ℕ

  unfoldable pub new_box : Option (List ℕ) → ℕ → Heap → Option ℕ × Heap
  unfolding tokenizer_new
  new_box json max_length heap = elim (tokenizer_new lib json max_length) [
    | none ↦ (none, heap)
    | some handle ↦ (
      some heap.next,
      record { boxes = write heap.boxes heap.next (some handle); next = suc heap.next },
    )
  ]

  unfoldable pub free_box : Option ℕ → Heap → Heap
  free_box none heap = heap
  free_box (some address) heap = record heap { boxes = write heap.boxes address none }

  unfoldable pub encode_box : Option ℕ → Option Text → Memory ℕ → ℕ → ℕ → Heap → Option EncodeResult
  unfolding tokenizer_encode
  encode_box none text ids capacity written heap =
      some (tokenizer_encode lib none text ids capacity written)
  encode_box (some address) text ids capacity written heap = elim (heap.boxes address) [
    | none ↦ none
    | some handle ↦ some (tokenizer_encode lib (some handle) text ids capacity written)
  ]

  -- tokenizer/src/lib.rs behind the interface.
  abbrev pub boxed : Interface
  boxed = record {
    Memory_of = Heap;
    cyborgdb_tokenizer_new = new_box;
    cyborgdb_tokenizer_free = free_box;
    cyborgdb_tokenizer_encode = encode_box;
  }

  -- The addresses from `next` on have no box.
  abbrev pub IsHeap : Heap → Type 0
  IsHeap heap = (a : ℕ) → heap.next ≤ a → heap.boxes a ≡ none

  -- A load on a heap stands for a load that gives the tokenizer itself.
  abbrev pub StandsFor :
      Heap → Status × Option (Tokenizer lib) → Status × Option Object × Heap → Type 0
  StandsFor heap (status, none) (same, none, later) = (same ≡ status) × (later ≡ heap)
  StandsFor heap (status, some t) (same, some o, later) =
      (same ≡ status)
      × (heap.boxes o.handle_ ≡ none)
      × ((now : Heap) (prefix text : Text)
          → now.boxes o.handle_ ≡ later.boxes o.handle_
          → encode_object boxed o prefix text now ≡ some (encode_text lib t prefix text))
      × ((a : ℕ) → o.handle_ ≢ a → later.boxes a ≡ heap.boxes a)
      × ((a : ℕ) → (destroy_object boxed o later).boxes a ≡ heap.boxes a)
      × IsHeap later
      × IsHeap (destroy_object boxed o later)
  StandsFor heap (status, none) (same, some o, later) = ⊥
  StandsFor heap (status, some t) (same, none, later) = ⊥
