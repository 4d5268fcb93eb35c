-- ===== src/Importer/Collected.antt =====
-- The map that `ReadTestZIP` in `internal/importer/tests.go` has after its loop over the entries.
use cotests.Prelude.{
  ℕ, ◌+◌, ◌≤◌, ◌<◌, ◌≡◌, refl, sym, ap, subst, ◌⊎◌, inl, inr, String, true, some, List, [], ◌∷◌,
  arith, In, length,
}
use cotests.Prelude.Assoc.{UniqueKeys}
use cotests.Outcome.{ok, ok-injective}
use cotests.Source.{Bytes, max_int64}
use cotests.Importer.{Limits, Entry, Files, half, put_half, kind_of, collect}
use cotests.Importer.Halves.{put_half_new, put_half_same, put_half_old, put_half-UniqueKeys}
use cotests.Importer.Loop.{Reads, IsFlat, Weigh, stem_of, Round, collect-Round}

module _ (to_lower : String → String) where
  -- An entry is the half `kind` of the test `base`.
  abbrev pub IsHalf : List Entry → String → String → Bytes → Type 0
  IsHalf l base kind content =
      (file : Entry) × In file l
      × (stem_of file.name ≡ base)
      × (kind_of to_lower file.name ≡ kind)
      × Reads file content

  -- A file that was taken over into the map.
  abbrev pub Taken : Files → Entry → Type 0
  Taken files file =
      IsFlat file.name
      × (file.is_regular ≡ true)
      × ((kind_of to_lower file.name ≡ ".in") ⊎ (kind_of to_lower file.name ≡ ".out"))
      × (content : Bytes) × Reads file content
      × (half (stem_of file.name) (kind_of to_lower file.name) files ≡ some content)

  pub record Collected (max : ℕ) (l : List Entry) (files : Files) (total : ℕ) (out : Files)
      : Type 0 where
    pub unique : UniqueKeys out
    pub kept : (b e : String) (c : Bytes) → half b e files ≡ some c → half b e out ≡ some c
    pub added :
        (b e : String) (c : Bytes)
        → half b e out ≡ some c
        → (half b e files ≡ some c) ⊎ IsHalf l b e c
    pub taken : (file : Entry) → In file l → Taken out file
    pub weight : (n : ℕ) × Weigh l n × (total + n ≤ max)

  Collected-cons :
      (limits : Limits) (file : Entry) (l : List Entry) (files out : Files) (total : ℕ)
      (round : Round to_lower limits file files total)
      → UniqueKeys files
      → Collected limits.max_bytes l
          (put_half (stem_of file.name) (kind_of to_lower file.name) round.content files)
          (total + length round.content)
          out
      → Collected limits.max_bytes (file ∷ l) files total out
  Collected-cons limits file l files out total round u rest =
      let base = stem_of file.name in
      let kind = kind_of to_lower file.name in
      let (n, weigh, fits) = rest.weight in
      record {
        unique = rest.unique;
        kept = λ b e c h.
            rest.kept b e c (put_half_old base kind b e round.content c files round.fresh h);
        added = λ b e c h. elim (rest.added b e c h) [
          | inl m ↦ elim (put_half_new base kind b e round.content c files round.fresh m) [
            | inl (eb, ee, ec) ↦
                inr (file, inl refl, sym eb, sym ee, subst (Reads file) (sym ec) round.reads)
            | inr old ↦ inl old
          ]
          | inr (f, i, eb, ee, reads) ↦ inr (f, inr i, eb, ee, reads)
        ];
        taken = λ f. elim [
          | inl e ↦ subst (Taken out) (sym e) (
            round.flat,
            round.regular,
            round.known,
            round.content,
            round.reads,
            rest.kept base kind round.content (put_half_same base kind round.content files),
          )
          | inr i ↦ rest.taken f i
        ];
        weight =
            (length round.content + n, (round.content, round.reads, n, weigh, refl), ground arith);
      }

module _ (clean to_lower : String → String) where
  pub collect-Collected :
      (limits : Limits) (l : List Entry) (files : Files) (total : ℕ) (r : Files × ℕ)
      → limits.max_bytes < max_int64
      → UniqueKeys files
      → total ≤ limits.max_bytes
      → collect clean to_lower limits l files total ≡ ok r
      → Collected to_lower limits.max_bytes l files total r.0
  unfolding collect
  collect-Collected limits [] files total r bound u small h =
      let e : files ≡ r.0 = ap (λ x. x.0) (ok-injective h) in
      record {
        unique = subst UniqueKeys e u;
        kept = λ b k c. subst (λ z. half b k z ≡ some c) e;
        added = λ b k c m. inl (subst (λ z. half b k z ≡ some c) (sym e) m);
        taken = λ f i. absurd i;
        weight = (0, refl, omega arith);
      }
  collect-Collected limits (file ∷ l) files total r bound u small h =
      let (round, rest) = collect-Round clean to_lower limits file l files total r bound h in
      Collected-cons to_lower limits file l files r.0 total round u (
        collect-Collected limits l
          (put_half (stem_of file.name) (kind_of to_lower file.name) round.content files)
          (total + length round.content) r bound (put_half-UniqueKeys _ _ round.content files u)
          round.fits rest)
