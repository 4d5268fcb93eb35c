-- ===== src/Artifact/Files.antt =====
-- What the calls on files that `Save` of `internal/artifact/store.go` makes leave in the directory.
use cotests.Prelude.{
  ◌≡◌, ◌≢◌, refl, sym, ap, ◌∙◌, ◌⊎◌, inl, inr, String, none, some, str_eq, eq_iff, arith,
  Bool-cases,
}
use cotests.Outcome.{Result, ok, err}
use cotests.Artifact.Keys.{is_key}
use cotests.Artifact.{remove_key}
use cotests.Artifact.Directory.{Disk, DiskLaws, File, SameBut, SameFiles, CanRemove}

pub Text-cases : (a b : String) → (a ≡ b) ⊎ (a ≢ b)
Text-cases a b = elim (Bool-cases (str_eq a b)) [
  | inl same ↦ inl ((eq_iff a b).0 same)
  | inr apart ↦ inr (λ e. ground (arith, eq_iff a b))
]

module _ (d : Disk) where
  open d use {Root, look, remove}

  -- Every file that is there was there before, with the same content.
  abbrev pub NothingNew : Root → Root → Type 0
  NothingNew root root' =
      (n : String) (file : File) → look n root' ≡ some file → look n root ≡ some file

  pub NothingNew-of_same : (root root' : Root) → SameFiles d root root' → NothingNew root root'
  NothingNew-of_same root root' same n file h = sym (same n) ∙ h

  -- A file is gone, and nothing else happened.
  NothingNew-of_removed :
      (name : String) (root root' : Root)
      → SameBut d name root root'
      → look name root' ≡ none
      → NothingNew root root'
  NothingNew-of_removed name root root' frame gone n file h = elim (Text-cases n name) [
    | inl e ↦ absurd (not_both (sym (ap (λ z. look z root') e ∙ gone) ∙ h))
    | inr ne ↦ sym (frame n ne) ∙ h
  ]
    where
      not_both : none ≡ some file → ⊥
      not_both k = cc

  pub NothingNew-trans :
      (root root₁ root' : Root)
      → NothingNew root root₁
      → NothingNew root₁ root'
      → NothingNew root root'
  NothingNew-trans root root₁ root' h k n file m = h n file (k n file m)

  SameBut-trans :
      (name : String) (root root₁ root' : Root)
      → SameBut d name root root₁
      → SameBut d name root₁ root'
      → SameBut d name root root'
  SameBut-trans name root root₁ root' h k n ne = k n ne ∙ h n ne

  -- After a removal, whatever it answered, the file is not there.
  pub removed :
      DiskLaws d
      → CanRemove d
      → (name : String) (x : Result (Unit {0})) (root root' : Root) → remove name root ≡ (x, root')
      → (look name root' ≡ none) × SameBut d name root root'
  removed laws can name (ok u) root root' h = laws.remove_ok name root root' h
  removed laws can name (err e) root root' h =
      let same = laws.remove_err name e root root' h in
      (same name ∙ can name e root root' h, λ n ne. same n)

  -- A removal touches no other file.
  pub remove-SameBut :
      DiskLaws d → (name : String) (root : Root) → SameBut d name root (remove name root).1
  remove-SameBut laws name root = go (remove name root) refl
    where
      go : (x : Result (Unit {0}) × Root) → remove name root ≡ x → SameBut d name root x.1
      go (ok u, root') h = (laws.remove_ok name root root' h).1
      go (err e, root') h = λ n ne. laws.remove_err name e root root' h n

  pub remove_key-SameBut :
      DiskLaws d → (key : String) (root : Root) → SameBut d key root (remove_key d key root).1
  unfolding remove_key
  remove_key-SameBut laws key root n ne = elim (Bool-cases (is_key key)) [
    | inl valid ↦ rw valid (remove-SameBut laws key root n ne)
    | inr invalid ↦ rw invalid refl
  ]
