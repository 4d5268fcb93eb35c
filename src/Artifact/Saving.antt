-- ===== src/Artifact/Saving.antt =====
-- What `Save` of `internal/artifact/store.go` does up to the metadata, when it returns and when it
-- fails.
use cotests.Prelude.{
  ℕ, ◌≤◌, ◌≡◌, ◌≢◌, refl, ap, ◌∙◌, subst, inl, inr, String, not, none, some, length, take, arith,
  Bool-cases, leb, ◌==◌,
}
use cotests.Prelude.Int.{difference, exceeds}
use cotests.Outcome.{Error, ok, err, guard, too_large, quota, guard-eq-ok, ok-injective}
use cotests.Outcome.Action.{
  pure, ask, lift, >>=-eq-ok, >>-eq-ok, >>-eq-err, same_state, closed_by-eq-ok,
}
use cotests.Outcome.Keeps.{
  Preorder, Keeps, Keeps-of, Keeps-at, Keeps-lift, Keeps-ask, Keeps->>=, Keeps->>, Keeps-closed_by,
  pure_returns, Fails->>=, Fails->>,
}
use cotests.Source.{Bytes, Source, beyond, read_beyond}
use cotests.Artifact.Directory.{Disk, DiskLaws, File, SameBut}
use cotests.Artifact.{Store, used_bytes, within_quota, copy_to, fill, commit_file}

module _ (d : Disk) (laws : DiskLaws d) where
  open d use {Root, look, read_dir, write, sync, close, chmod, rename}

  same_order : Preorder (λ (root : Root) root'. root' ≡ root)
  same_order = record { reflexive = λ s. refl; transitive = λ s s₁ s' h k. k ∙ h }

  frame_order : (name : String) → Preorder (SameBut d name)
  frame_order name = record {
    reflexive = λ s n ne. refl;
    transitive = λ s s₁ s' h k n ne. k n ne ∙ h n ne;
  }

  within_quota-Keeps :
      (store : Store) (n : ℕ) → Keeps (λ root root'. root' ≡ root) (within_quota d store n)
  unfolding within_quota
  within_quota-Keeps store n root = elim (Bool-cases (store.max_total_bytes == 0)) [
    | inl free ↦ rw free refl
    | inr bounded ↦ rw bounded (
        Keeps->>= same_order (ask read_dir) _ (Keeps-ask same_order read_dir)
          (λ entries.
            Keeps->>= same_order (ask (used_bytes d entries 0)) _
              (Keeps-ask same_order (used_bytes d entries 0))
              (λ used.
                Keeps-lift same_order
                  (guard (not (exceeds n (difference store.max_total_bytes used))) quota)))
          root)
  ]

  fill-Keeps :
      (store : Store) (source : Source) (name : String)
      → Keeps (SameBut d name) (fill d store source name)
  unfolding fill
  fill-Keeps store source name =
      let order = frame_order name in
      let sync_keeps : Keeps (SameBut d name) (sync name) =
        Keeps-of (SameBut d name) (sync name) (λ x s s' h n ne. laws.sync_files name x s s' h n) in
      let close_keeps : Keeps (SameBut d name) (close name) =
        Keeps-of (SameBut d name) (close name)
          (λ x s s' h n ne. laws.close_files name x s s' h n) in
      Keeps-closed_by order (close name) (copy_to d store source name) close_keeps (
        Keeps->> order (write name (take (beyond store.max_bytes) source.content)) _
          (Keeps-of (SameBut d name) (write name (take (beyond store.max_bytes) source.content))
            (laws.write_frame name (take (beyond store.max_bytes) source.content)))
          (Keeps->>= order (lift (read_beyond store.max_bytes source)) _
            (Keeps-lift order (read_beyond store.max_bytes source))
            (λ content.
              Keeps->> order (sync name) (pure content) sync_keeps
                (Keeps-lift order (ok content)))))

  -- The temporary file after it was filled.
  fill_ok :
      (store : Store) (source : Source) (name : String) (content : Bytes) (root root' : Root)
      → fill d store source name root ≡ (ok content, root')
      → (read_beyond store.max_bytes source ≡ ok content)
        × (file : File) × (look name root' ≡ some file)
        × (file.content ≡ take (beyond store.max_bytes) source.content)
  unfolding fill
  fill_ok store source name content root root' h =
      let (r, body, closed) =
        closed_by-eq-ok (close name) (copy_to d store source name) content root root' h in
      let (_, r₁, written, h₁) =
        >>-eq-ok (write name (take (beyond store.max_bytes) source.content)) _ root r body in
      let (c, r₂, read, h₂) = >>=-eq-ok (lift (read_beyond store.max_bytes source)) _ r₁ r h₁ in
      let (got, e₂) = same_state read in
      let (_, r₃, synced, done) = >>-eq-ok (sync name) (pure c) r₂ r h₂ in
      let (same, e₃) = same_state done in
      let (file, stands, holds) = laws.write_ok name _ root r₁ written in
      (
        got ∙ same,
        file,
        laws.close_files name (ok tt) r root' closed name
            ∙ ap (look name) e₃
            ∙ laws.sync_files name (ok tt) r₂ r₃ synced name
            ∙ ap (look name) e₂
            ∙ stands,
        holds,
      )

  -- The files that stand beside the two names.
  abbrev pub SameBesides : String → String → Root → Root → Type 0
  SameBesides a b root root' = (n : String) → n ≢ a → n ≢ b → look n root' ≡ look n root

  -- What is stored under the key when the file is committed.
  abbrev IsStored : Store → Source → String → Bytes → Root → Type 0
  IsStored store source key content root =
      (read_beyond store.max_bytes source ≡ ok content)
      × (length content ≤ store.max_bytes)
      × (file : File) × (look key root ≡ some file)
      × (file.content ≡ take (beyond store.max_bytes) source.content)

  pub commit_file_ok :
      (store : Store) (source : Source) (name key : String) (content : Bytes) (root root' : Root)
      → commit_file d store source name key root ≡ (ok content, root')
      → name ≢ key
      → IsStored store source key content root'
        × (look name root' ≡ none)
        × SameBesides name key root root'
  unfolding commit_file
  commit_file_ok store source name key content root root' h ne =
      let (c, r₁, filled, h₁) = >>=-eq-ok (fill d store source name) _ root root' h in
      let (got, file, stands, holds) = fill_ok store source name c root r₁ filled in
      let frame =
        Keeps-at (SameBut d name) (fill d store source name) (ok c) root r₁
          (fill-Keeps store source name) filled in
      let (_, r₂, checked, h₂) =
        >>-eq-ok (lift (guard (leb (length c) store.max_bytes) too_large)) _ r₁ root' h₁ in
      let (small, e₂) = same_state checked in
      let (_, r₃, free, h₃) = >>-eq-ok (within_quota d store (length c)) _ r₂ root' h₂ in
      let e₃ =
        Keeps-at (λ s s'. s' ≡ s) (within_quota d store (length c)) (ok tt) r₂ r₃
          (within_quota-Keeps store (length c)) free in
      let (_, r₄, chmodded, h₄) = >>-eq-ok (chmod name) _ r₃ root' h₃ in
      let same₄ = laws.chmod_files name (ok tt) r₃ r₄ chmodded in
      let (_, r₅, renamed, done) = >>-eq-ok (rename name key) (pure c) r₄ root' h₄ in
      let (same, e₅) = same_state done in
      let (here, gone, others) = laws.rename_ok name key r₄ r₅ renamed ne in
      let up_to₄ : (n : String) → look n r₄ ≡ look n r₁ = λ n. same₄ n ∙ ap (look n) (e₃ ∙ e₂) in
      (
        (
          got ∙ same,
          subst (λ z. length z ≤ store.max_bytes) (ok-injective same)
              (ground (arith, guard-eq-ok (leb (length c) store.max_bytes) too_large small)),
          file,
          ap (look key) e₅ ∙ here ∙ up_to₄ name ∙ stands,
          holds,
        ),
        ap (look name) e₅ ∙ gone,
        λ n ne₁ ne₂. ap (look n) e₅ ∙ others n ne₁ ne₂ ∙ up_to₄ n ∙ frame n ne₁,
      )

  -- If it fails, only the temporary file is left behind.
  pub commit_file_err :
      (store : Store) (source : Source) (name key : String) (e : Error) (root root' : Root)
      → commit_file d store source name key root ≡ (err e, root')
      → SameBut d name root root'
  unfolding commit_file
  commit_file_err store source name key e root root' h =
      let order = frame_order name in
      Fails->>= order (fill d store source name) _ (fill-Keeps store source name)
        (λ c.
          Fails->> order (lift (guard (leb (length c) store.max_bytes) too_large)) _
            (Keeps-lift order (guard (leb (length c) store.max_bytes) too_large))
            (Fails->> order (within_quota d store (length c)) _
              (λ r n ne. ap (look n) (within_quota-Keeps store (length c) r))
              (Fails->> order (chmod name) _
                (Keeps-of (SameBut d name) (chmod name)
                  (λ x s s' k n ne. laws.chmod_files name x s s' k n))
                (λ e' s s' k. elim (>>-eq-err (rename name key) (pure c) e' s s' k) [
                  | inl first ↦ λ n ne. laws.rename_err name key e' s s' first n
                  | inr (u, s₁, done, rest) ↦ absurd (pure_returns c e' s₁ s' rest)
                ]))))
        e root root' h
