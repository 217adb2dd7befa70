-- ===== src/Process/Over.antt =====
-- src/session_store.cpp: the flights after several changes of one of them.
use cyborgdb_embed.Prelude.{
  ℕ, ◌≡◌, ◌≢◌, refl, sym, ◌∙◌, ◌⊎◌, inl, inr, some, write, write_hit, write_miss,
}
use cyborgdb_embed.Store.World.{Flight, Flights}
use cyborgdb_embed.Store.Changes.{some_injective}
use cyborgdb_embed.Process.Counts.{at_or_else}

-- The flights after changes at `p` alone.
pub record Over (flights later : Flights) (p : ℕ) (g : Flight) : Type 0 where
  pub hit : later p ≡ some g
  pub others : (j : ℕ) → p ≢ j → later j ≡ flights j

pub twice-Over :
    (flights : Flights) (p : ℕ) (f g : Flight)
    → Over flights (write (write flights p (some f)) p (some g)) p g
twice-Over flights p f g = record {
  hit = write_hit (write flights p (some f)) p (some g);
  others = λ j ne.
      write_miss (write flights p (some f)) p j (some g) ne ∙ write_miss flights p j (some f) ne;
}

pub thrice-Over :
    (flights : Flights) (p : ℕ) (f g h : Flight)
    → Over flights (write (write (write flights p (some f)) p (some g)) p (some h)) p h
thrice-Over flights p f g h = record {
  hit = write_hit (write (write flights p (some f)) p (some g)) p (some h);
  others = λ j ne.
      write_miss (write (write flights p (some f)) p (some g)) p j (some h) ne
      ∙ (twice-Over flights p f g).others j ne;
}

pub changed_cases :
    (flights later : Flights) (p : ℕ) (g : Flight)
    → Over flights later p g
    → (j : ℕ) (k : Flight) → later j ≡ some k
    → (p ≡ j) × (g ≡ k) ⊎ (p ≢ j) × (flights j ≡ some k)
changed_cases flights later p g o j k there =
    at_or_else (λ x. later x ≡ some k → (p ≡ x) × (g ≡ k) ⊎ (p ≢ x) × (flights x ≡ some k)) p
      (λ here. inl (refl, some_injective (sym o.hit ∙ here)))
      (λ x ne here. inr (ne, sym (o.others x ne) ∙ here)) j there
