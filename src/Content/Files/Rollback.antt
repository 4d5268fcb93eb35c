-- ===== src/Content/Files/Rollback.antt =====
-- A failing `fileTransaction` of `internal/content/files.go` takes everything back: the database
-- rolls back, and the files that were created are removed.
use cotests.Prelude.{
  ℕ, ◌≡◌, ◌<◌, refl, sym, ap, ◌∙◌, subst, ◌⊎◌, inl, inr, String, true, none, some, List, [], ◌∷◌,
  ◌++◌, In, All,
}
use cotests.Outcome.{Error, Result, ok, err}
use cotests.Outcome.Action.{Action, on_first, with_error, renamed}
use cotests.Outcome.Keeps.{Preorder, Keeps, Fails}
use cotests.Source.{Bytes, Source, max_int64}
use cotests.Db.Models
use cotests.Db.Models.{Table}
use cotests.Db.Gorm.{Gorm, GormLaws}
use cotests.Artifact.Directory.{Disk, DiskLaws, File, CanRemove}
use cotests.Artifact.Keys.{FillsKey, random_key_fits, is_key}
use cotests.Artifact.Files.{Text-cases, NothingNew, removed}
use cotests.Artifact.Harmless.{Harmless, save-Harmless}
use cotests.Artifact.Stored.{save-Saved}
use cotests.Artifact.{Store, World, remove_key, save}
use cotests.Content.Files.{
  FileWorld, counted, remove_created, compensated, file_transaction, save_counted,
}

In-append_last : {A : Type 0} (l : List A) (x : A) → In x (l ++ x ∷ [])
In-append_last [] x = inl refl
In-append_last (y ∷ l) x = inr (In-append_last l x)

In-append_old : {A : Type 0} (l : List A) (x a : A) → In a l → In a (l ++ x ∷ [])
In-append_old [] x a m = absurd m
In-append_old (y ∷ l) x a (inl e) = inl e
In-append_old (y ∷ l) x a (inr m) = inr (In-append_old l x a m)

All-append :
    {A : Type 0} (P : A → Type 0) (l : List A) (x : A) → All P l → P x → All P (l ++ x ∷ [])
All-append P [] x h p = (p, tt)
All-append P (y ∷ l) x h p = (h.0, All-append P l x h.1 p)

module _ (d : Disk) (g : Gorm) where
  open d use {Root, look, remove}
  open g use {State, rows, transaction_with}

  -- Of the files that are there, those that were not there at the start have their keys in the list.
  abbrev IsCounted : Root → Root → List Models.Artifact → Type 0
  IsCounted start root created =
      All (λ item. is_key item.storage_key ≡ true) created
      × ((n : String) (file : File)
          → look n root ≡ some file
          → (look n start ≡ some file)
            ⊎ ((item : Models.Artifact) × In item created × (item.storage_key ≡ n)))

  abbrev pub Counts : FileWorld d g → FileWorld d g → Type 0
  Counts w w' = (start : Root) → IsCounted start w.1.0 w.1.1 → IsCounted start w'.1.0 w'.1.1

  pub Counts-order : Preorder Counts
  Counts-order = record {
    reflexive = λ w start h. h;
    transitive = λ w w₁ w' h k start m. k start (h start m);
  }

  -- Calls of the database count nothing.
  pub Counts-on_first : {A : Type 0} (m : Action State A) → Keeps Counts (on_first m)
  Counts-on_first m w start h = h

  pub Counts-with_error :
      {A : Type 0} (f : Error → Error) (m : Action (FileWorld d g) A)
      → Keeps Counts m
      → Keeps Counts (with_error f m)
  Counts-with_error {A} f m h w = subst (Counts w) (sym (same (m w))) (h w)
    where
      same : (x : Result A × FileWorld d g) → (renamed f x).1 ≡ x.1
      same (ok a, s) = refl
      same (err e, s) = refl

  module _ (disk_laws : DiskLaws d) (laws : GormLaws g) (can : CanRemove d) where
    removes :
        (key : String) (root : Root)
        → is_key key ≡ true
        → (remove_key d key root).1 ≡ (remove key root).1
    unfolding remove_key
    removes key root h = rw h refl

    -- The compensation removes exactly the files that are counted.
    remove_created-NothingNew :
        (start root : Root) (created : List Models.Artifact)
        → IsCounted start root created
        → NothingNew d start (remove_created d g created root)
    remove_created-NothingNew start root [] (keys, old) n file h = elim (old n file h) [
      | inl before ↦ before
      | inr (item, m, e) ↦ absurd m
    ]
    remove_created-NothingNew start root (item ∷ l) (keys, old) n file h =
        let root₁ = (remove_key d item.storage_key root).1 in
        let same : root₁ ≡ (remove item.storage_key root).1 =
          removes item.storage_key root keys.0 in
        let (gone, others) =
          removed d disk_laws can item.storage_key (remove item.storage_key root).0 root
            (remove item.storage_key root).1 refl in
        let still : IsCounted start root₁ l = (
          keys.1,
          λ k f there. elim (Text-cases k item.storage_key) [
            | inl e ↦ absurd (
                nothing (
                  sym gone
                  ∙ sym (ap (look item.storage_key) same)
                  ∙ ap (λ z. look z root₁) (sym e)
                  ∙ there))
            | inr ne ↦ elim (old k f (sym (others k ne) ∙ sym (ap (look k) same) ∙ there)) [
              | inl before ↦ inl before
              | inr (other, m, e) ↦ elim m [
                | inl is_item ↦ absurd (ne (sym e ∙ ap (λ z. z.storage_key) is_item))
                | inr later ↦ inr (other, later, e)
              ]
            ]
          ],
        ) in
        remove_created-NothingNew start root₁ l still n file h
      where
        nothing : {f : File} → none ≡ some f → ⊥
        nothing k = cc

    pub save_counted-Counts :
        (digest : Bytes → String) (now : ℕ) (store : Store) (random : Result Bytes) (owner_id : ℕ)
        (filename content_type : String) (source : Source)
        → store.max_bytes < max_int64
        → FillsKey random
        → Keeps Counts
            (save_counted d g digest now store random owner_id filename content_type source)
    unfolding save_counted
    save_counted-Counts digest now store random owner_id filename content_type source bound fills
          (s, (root, created)) start h =
        go (save d g digest store random now owner_id filename content_type source (s, root)) refl
      where
        go :
            (x : Result Models.Artifact × World d g)
            → save d g digest store random now owner_id filename content_type source (s, root) ≡ x
            → IsCounted start (counted d g created x).1.1.0 (counted d g created x).1.1.1
        go (err e, (s', root')) k =
            let (_, only_old) =
              save-Harmless d g disk_laws laws digest store source can random now owner_id filename
                content_type e (s, root) (s', root') k in
            (h.0, λ n file there. h.1 n file (only_old n file there))
        go (ok item, (s', root')) k =
            let saved =
              save-Saved d g disk_laws laws digest store source random now owner_id filename
                content_type item (s, root) (s', root') bound k in
            let same : item.storage_key ≡ saved.key = ap (λ z. z.storage_key) saved.row.0 in
            (
              All-append _ created item h.0
                  (ap is_key same ∙ random_key_fits random saved.key fills saved.drawn),
              λ n file there. elim (Text-cases n saved.key) [
                | inl e ↦ inr (item, In-append_last created item, same ∙ sym e)
                | inr ne ↦ elim (h.1 n file (sym (saved.others n ne) ∙ there)) [
                  | inl before ↦ inl before
                  | inr (other, m, e) ↦ inr (other, In-append_old created item other m, e)
                ]
              ],
            )

    -- When the function of a `fileTransaction` only stores files by the function that it is given,
    -- a failure leaves every row as it was and no file that was not there before.
    pub file_transaction-Harmless :
        {A : Type 0} (fn : Action (FileWorld d g) A)
        → Keeps Counts fn
        → Fails (Harmless d g) (file_transaction d g fn)
    unfolding file_transaction
    file_transaction-Harmless {A} fn counts e (s, root) w' h =
        go (transaction_with fn (s, (root, []))) refl h
      where
        go :
            (x : Result A × FileWorld d g)
            → transaction_with fn (s, (root, [])) ≡ x
            → compensated d g x ≡ (err e, w')
            → Harmless d g (s, root) w'
        go (ok a, w₁) k j = absurd (cc)
        go (err c, (s₁, (root₁, created))) k j =
            let (kept, outside) =
              laws.transaction_with_err fn c (s, (root, [])) (s₁, (root₁, created)) k in
            let before : IsCounted root root [] = (tt, λ n file there. inl there) in
            let at_end : IsCounted root root₁ created = elim outside [
              | inl same ↦ subst (λ z. IsCounted root z.0 z.1) (sym same) before
              | inr same ↦
                  subst (λ z. IsCounted root z.0 z.1) (sym same)
                    (counts (s, (root, [])) root before)
            ] in
            let ends = ap (λ y. y.1) j in
            (
              λ t. ap (λ z. rows t z.0) (sym ends) ∙ kept t,
              λ n file there.
                  remove_created-NothingNew root root₁ created at_end n file
                    (ap (λ z. look n z.1) ends ∙ there),
            )
