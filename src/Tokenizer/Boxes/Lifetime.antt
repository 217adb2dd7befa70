-- ===== src/Tokenizer/Boxes/Lifetime.antt =====
-- src/tokenizer.cpp, `Tokenizer::load` and `Tokenizer::~Tokenizer`: the boxes before, between and after.
use cyborgdb_embed.Prelude.{
  different, ℕ, suc, arith, ◌≡◌, refl, sym, ap, subst, ◌∙◌, inl, inr, List, ◌++◌, Option, none,
  some, Option-cases, Text, codes, write, write_hit, write_miss, ◌==◌, ==_iff, Bool-cases,
}
use cyborgdb_embed.Status.{Status, success, tokenizer_failed}
use cyborgdb_embed.Resolve.Download.{Disk}
use cyborgdb_embed.Tokenizer.Shim.{Library, Handle, tokenizer_new}
use cyborgdb_embed.Tokenizer.{Tokenizer, load, encode_text}
use cyborgdb_embed.Tokenizer.Boxes.{
  load_object, finish_new, encode_object, destroy_object, Heap, new_box, free_box, encode_box,
  boxed, IsHeap, StandsFor,
}

module _ (lib : Library) where
  encode_own :
      (now : Heap lib) (address : ℕ) (handle : Handle lib) (max_tokens : ℕ) (prefix text : Text)
      → now.boxes address ≡ some handle
      → encode_object
          (boxed lib)
          (record { handle_ = address; max_tokens_ = max_tokens })
          prefix
          text
          now
        ≡ some (encode_text lib (record { handle = handle; max_tokens = max_tokens }) prefix text)
  unfolding encode_object encode_box encode_text
  encode_own now address handle max_tokens prefix text here =
      rw (encode_object, encode_box, encode_text, here) refl

  -- The box goes, and the others stay.
  restored :
      (heap : Heap lib) (handle : Handle lib) (a : ℕ)
      → heap.boxes heap.next ≡ none
      → write (write heap.boxes heap.next (some handle)) heap.next none a ≡ heap.boxes a
  restored heap handle a unused =
      let one = write heap.boxes heap.next (some handle) in
      elim (Bool-cases (heap.next == a)) [
        | inl same ↦
            let e : heap.next ≡ a = (==_iff heap.next a).0 same in
            subst (λ x. write one heap.next none x ≡ heap.boxes x) e
              (write_hit one heap.next none ∙ sym unused)
        | inr differ ↦
            let ne = different heap.next a differ in
            write_miss one heap.next a none ne ∙ write_miss heap.boxes heap.next a (some handle) ne
      ]

  module _ (disk : Disk) (path : Text) (max_tokens : ℕ) (heap : Heap lib)
      (heap_ok : IsHeap lib heap) where
    unused : heap.boxes heap.next ≡ none
    unused = heap_ok heap.next (omega arith)

    more-IsHeap :
        (handle : Handle lib)
        → IsHeap lib
            (record { boxes = write heap.boxes heap.next (some handle); next = suc heap.next })
    more-IsHeap handle a above =
        write_miss heap.boxes heap.next a (some handle) (λ e. absurd (omega arith))
        ∙ heap_ok a (omega arith)

    abbrev invalid_tokenizer : Status
    invalid_tokenizer = record {
      code = tokenizer_failed;
      message = path ++ codes " is not a valid tokenizer";
    }

    load_invalid :
        (json : List ℕ)
        → disk path ≡ some json
        → tokenizer_new lib (some json) max_tokens ≡ none
        → load lib disk path max_tokens ≡ (invalid_tokenizer, none)
    unfolding load
    load_invalid json found invalid = rw (load, found, invalid) refl

    load_valid :
        (json : List ℕ) (handle : Handle lib)
        → disk path ≡ some json
        → tokenizer_new lib (some json) max_tokens ≡ some handle
        → load lib disk path max_tokens
          ≡ (success, some (record { handle = handle; max_tokens = max_tokens }))
    unfolding load
    load_valid json handle found valid = rw (load, found, valid) refl

    new_none :
        (json : List ℕ)
        → tokenizer_new lib (some json) max_tokens ≡ none
        → new_box lib (some json) max_tokens heap ≡ (none, heap)
    unfolding new_box
    new_none json invalid = rw (new_box, invalid) refl

    new_some :
        (json : List ℕ) (handle : Handle lib)
        → tokenizer_new lib (some json) max_tokens ≡ some handle
        → new_box lib (some json) max_tokens heap ≡ (
          some heap.next,
          record { boxes = write heap.boxes heap.next (some handle); next = suc heap.next },
        )
    unfolding new_box
    new_some json handle valid = rw (new_box, valid) refl

    object_found :
        (json : List ℕ) (made : Option ℕ × Heap lib)
        → disk path ≡ some json
        → new_box lib (some json) max_tokens heap ≡ made
        → load_object (boxed lib) disk path max_tokens heap
          ≡ finish_new (boxed lib) path max_tokens made
    unfolding load_object
    object_found json made found is =
        rw (load_object, found) (ap (finish_new (boxed lib) path max_tokens) is)

    -- On a heap whose addresses from the next on have no box, `load` with its memory stands for `load` as
    -- a function of the file. A load that fails leaves the heap as it was. One that succeeds makes one
    -- new box and leaves the others; on every heap that has that box as the load left it, `encode` of
    -- the object is `encode` of the tokenizer; `~Tokenizer` right after the load leaves exactly the
    -- boxes there were before it; and after the load, and after the destructor, the addresses from the
    -- next on have no box again.
    pub load-destroy :
        StandsFor lib heap
          (load lib disk path max_tokens)
          (load_object (boxed lib) disk path max_tokens heap)
    unfolding load load_object finish_new destroy_object free_box
    load-destroy = elim (Option-cases (disk path)) [
      | inl unread ↦ rw (load, load_object, unread) (refl, refl)
      | inr (json, found) ↦ elim (Option-cases (tokenizer_new lib (some json) max_tokens)) [
        | inl invalid ↦
            subst (λ r. StandsFor lib heap r (load_object (boxed lib) disk path max_tokens heap))
              (sym (load_invalid json found invalid))
              (subst (StandsFor lib heap (invalid_tokenizer, none))
                (sym (object_found json (none, heap) found (new_none json invalid))) (refl, refl))
        | inr (handle, valid) ↦
            let t : Tokenizer lib = record { handle = handle; max_tokens = max_tokens } in
            subst (λ r. StandsFor lib heap r (load_object (boxed lib) disk path max_tokens heap))
              (sym (load_valid json handle found valid))
              (subst (StandsFor lib heap (success, some t))
                (sym (object_found json _ found (new_some json handle valid)))
                (
                  refl,
                  unused,
                  λ now prefix text kept.
                      encode_own now heap.next handle max_tokens prefix text
                        (kept ∙ write_hit heap.boxes heap.next (some handle)),
                  λ a other. write_miss heap.boxes heap.next a (some handle) other,
                  λ a. restored heap handle a unused,
                  more-IsHeap handle,
                  λ a above. restored heap handle a unused ∙ heap_ok a (omega arith),
                ))
      ]
    ]
