-- ===== src/Content/Files/Collected.antt =====
-- What `Collect` of `internal/content/files.go` must leave: the artifacts that are in use or young,
-- and their files.
use cotests.Prelude.{
  ℕ, ◌-◌, ◌≤◌, ◌≡◌, ◌≢◌, refl, sym, ap, ◌∙◌, subst, inl, inr, String, Bool, true, false, not,
  Option, some, List, [], ◌∷◌, In, In-keep, keep-In, any, ◌==◌, arith, Bool-cases, keep, ==_refl,
}
use cotests.Prelude.Int.{given_and}
use cotests.Outcome.{Error, Result, ok, err, ok-injective}
use cotests.Outcome.Action.{pure, ask, >>=-eq-ok, >>-eq-ok, same_state}
use cotests.Db.Models.{User, ProblemRevision, TestCase, ImportPreview, Artifact, Table, has_id}
use cotests.Db.Gorm.{Gorm, GormLaws}
use cotests.Content.Members.{admin}
use cotests.Content.Reading.{uses, has_pdf}
use cotests.Artifact.Directory.{Disk, DiskLaws}
use cotests.Artifact.Keys.{is_upload}
use cotests.Artifact.{World}
use cotests.Content.Files.Archives.{hour}
use cotests.Content.Files.Collector.{
  expired_before, unused, find_unused, delete_all, collect_transaction, collected, collect_before,
  collect,
}
use cotests.Content.Files.Spared.{collect_files-Spares}

any-In : {A : Type 0} (p : A → Bool) (l : List A) (x : A) → In x l → p x ≡ true → any p l ≡ true
any-In p [] x m h = absurd m
any-In p (y ∷ l) x (inl e) h = ground (arith, ap p e)
any-In p (y ∷ l) x (inr m) h = ground (arith, any-In p l x m h)

module _ (g : Gorm) where
  open g use {State, rows, delete, transaction}

  -- Why an artifact must stay.
  pub data IsNeeded (cutoff : ℕ) (a : Artifact) (s : State) : Type 0 where
    young : cutoff ≤ a.created_at → IsNeeded cutoff a s
    pdf_of :
        (r : ProblemRevision)
        → In r (rows Table.revisions s)
        → r.pdf_artifact_id ≡ some a.id
        → IsNeeded cutoff a s
    input_of :
        (t : TestCase)
        → In t (rows Table.test_cases s)
        → t.input_artifact_id ≡ a.id
        → IsNeeded cutoff a s
    output_of :
        (t : TestCase)
        → In t (rows Table.test_cases s)
        → t.output_artifact_id ≡ a.id
        → IsNeeded cutoff a s
    previewed_by :
        (p : ImportPreview)
        → In p (rows Table.previews s)
        → p.artifact_id ≡ a.id
        → cutoff ≤ p.expires_at
        → IsNeeded cutoff a s

  -- Artifacts differ in their primary and in their storage keys, and no storage key is the name of
  -- a temporary file.
  pub record AreDistinct (s : State) : Type 0 where
    pub by_id :
        (a b : Artifact)
        → In a (rows Table.artifacts s)
        → In b (rows Table.artifacts s)
        → a.id ≡ b.id
        → a ≡ b
    pub by_key :
        (a b : Artifact)
        → In a (rows Table.artifacts s)
        → In b (rows Table.artifacts s)
        → a.storage_key ≡ b.storage_key
        → a ≡ b
    pub no_upload : (a : Artifact) → In a (rows Table.artifacts s) → is_upload a.storage_key ≡ false

  module _ (laws : GormLaws g) where
    needed-unused :
        (cutoff : ℕ) (a : Artifact) (s s₁ : State)
        → IsNeeded cutoff a s
        → rows Table.revisions s₁ ≡ rows Table.revisions s
        → rows Table.test_cases s₁ ≡ rows Table.test_cases s
        → rows Table.previews s₁ ≡ keep (λ p. not (expired_before cutoff p)) (rows Table.previews s)
        → unused cutoff
            (rows Table.revisions s₁)
            (rows Table.test_cases s₁)
            (rows Table.previews s₁)
            a
          ≡ false
    needed-unused cutoff a s s₁ (young h) er et ep = ground arith
    needed-unused cutoff a s s₁ (pdf_of r m h) er et ep =
        let here : has_pdf a.id r ≡ true = ap (given_and (λ pdf. pdf == a.id)) h ∙ ==_refl a.id in
        let hit =
          any-In (has_pdf a.id) (rows Table.revisions s₁) r (subst (In r) (sym er) m) here in
        ground arith
    needed-unused cutoff a s s₁ (input_of t m h) er et ep =
        let here : uses a.id t ≡ true = ground arith in
        let hit = any-In (uses a.id) (rows Table.test_cases s₁) t (subst (In t) (sym et) m) here in
        ground arith
    needed-unused cutoff a s s₁ (output_of t m h) er et ep =
        let here : uses a.id t ≡ true = ground arith in
        let hit = any-In (uses a.id) (rows Table.test_cases s₁) t (subst (In t) (sym et) m) here in
        ground arith
    needed-unused cutoff a s s₁ (previewed_by p m h k) er et ep =
        let here : (p.artifact_id == a.id) ≡ true = ground arith in
        let kept =
          keep-In (λ q. not (expired_before cutoff q)) (rows Table.previews s) m (ground arith) in
        let hit =
          any-In (λ q. q.artifact_id == a.id) (rows Table.previews s₁) p
            (subst (In p) (sym ep) kept) here in
        ground arith

    delete_all-Keeps :
        (l : List Artifact) (a : Artifact) (s s' : State)
        → delete_all g l s ≡ (ok tt, s')
        → ((item : Artifact) → In item l → item.id ≢ a.id)
        → In a (rows Table.artifacts s)
        → In a (rows Table.artifacts s')
    unfolding delete_all
    delete_all-Keeps [] a s s' h others m =
        subst (λ z. In a (rows Table.artifacts z)) (sym (same_state h).1) m
    delete_all-Keeps (item ∷ l) a s s' h others m =
        let (n, s₁, deleted, rest) =
          >>-eq-ok (delete Table.artifacts (has_id Table.artifacts item.id)) (delete_all g l) s s'
            h in
        let (_, left, _) =
          laws.delete_ok Table.artifacts (has_id Table.artifacts item.id) n s s₁ deleted in
        let stays : not (has_id Table.artifacts item.id a) ≡ true =
          ground (arith, others item (inl refl)) in
        delete_all-Keeps l a s₁ s' rest (λ other i. others other (inr i))
          (subst (In a) (sym left) (
            keep-In (λ r. not (has_id Table.artifacts item.id r)) (rows Table.artifacts s) m stays))

    -- What the transaction returns: artifacts that nothing refers to; the others stay.
    collect_transaction_sound :
        (cutoff : ℕ) (found : List Artifact) (s s' : State)
        → collect_transaction g cutoff s ≡ (ok found, s')
        → AreDistinct s
        → (a : Artifact) → In a (rows Table.artifacts s)
        → IsNeeded cutoff a s
        → In a (rows Table.artifacts s')
          × ((item : Artifact) → In item found → a.storage_key ≢ item.storage_key)
    unfolding collect_transaction
    collect_transaction_sound cutoff found s s' h distinct a m needed =
        let (n, s₁, pruned, h₁) =
          >>-eq-ok (delete Table.previews (expired_before cutoff)) _ s s' h in
        let (_, left, frame) =
          laws.delete_ok Table.previews (expired_before cutoff) n s s₁ pruned in
        let er = frame Table.revisions (λ e. cc) refl in
        let et = frame Table.test_cases (λ e. cc) refl in
        let ea = frame Table.artifacts (λ e. cc) refl in
        let p =
          unused cutoff (rows Table.revisions s₁) (rows Table.test_cases s₁)
            (rows Table.previews s₁) in
        let (l, s₂, asked, h₂) = >>=-eq-ok (ask (find_unused g cutoff)) _ s₁ s' h₁ in
        let (answered, e₂) = same_state asked in
        let (_, s₃, deleted, done) = >>-eq-ok (delete_all g l) (pure l) s₂ s' h₂ in
        let (same, e₃) = same_state done in
        let needed_kept : p a ≡ false = needed-unused cutoff a s s₁ needed er et left in
        let other : (item : Artifact) → In item l → In item (rows Table.artifacts s) × (item ≢ a) =
          λ item i.
            let (yes_unused, there) =
              In-keep p (rows Table.artifacts s₁)
                ((laws.find_ok Table.artifacts p s₁ l answered item).0 i) in
            (subst (In item) ea there, λ e. both (sym yes_unused ∙ ap p e ∙ needed_kept)) in
        (
          subst (λ z. In a (rows Table.artifacts z)) (sym e₃)
              (delete_all-Keeps l a s₂ s₃ deleted
                (λ item i e. (other item i).1 (distinct.by_id item a (other item i).0 m e))
                (subst (λ z. In a (rows Table.artifacts z)) (sym e₂) (subst (In a) (sym ea) m))),
          λ item i e.
              let j = subst (In item) (sym (ok-injective same)) i in
              (other item j).1 (distinct.by_key item a (other item j).0 m (sym e)),
        )
      where
        both : true ≡ false → ⊥
        both q = cc

module _ (d : Disk) (g : Gorm) (disk_laws : DiskLaws d) (laws : GormLaws g) where
  open d use {Root, look}
  open g use {State, rows, transaction}

  -- The artifact and its file are as they were.
  abbrev pub Stays : Artifact → World d g → World d g → Type 0
  Stays a w w' =
      In a (rows Table.artifacts w'.0) × (look a.storage_key w'.1 ≡ look a.storage_key w.1)

  -- Where artifacts have distinct primary keys and distinct storage keys, none of which is the name
  -- of an upload: however a collection ends, with or without an error, at whatever file, an artifact
  -- whose row is at most an hour old, or that is the PDF of a revision, the input or output of a
  -- test or the archive of a preview that is valid or expired at most an hour ago, keeps its row and
  -- its file.
  pub collect-Stays :
      (now : ℕ) (cancelled : String → Option Error) (actor : Option User) (w : World d g)
      → AreDistinct g w.0
      → (a : Artifact) → In a (rows Table.artifacts w.0)
      → IsNeeded g (now - hour) a w.0
      → Stays a w (collect d g now cancelled actor w).2
  unfolding collect collect_before
  collect-Stays now cancelled actor (s, root) distinct a m needed =
      elim (Bool-cases (admin actor)) [
        | inr other ↦ rw other (m, refl)
        | inl admin_asks ↦
            rw admin_asks (go (transaction (collect_transaction g (now - hour)) s) refl)
      ]
    where
      go :
          (x : Result (List Artifact) × State)
          → transaction (collect_transaction g (now - hour)) s ≡ x
          → Stays a (s, root) (collected d g (now - hour) cancelled x root).2
      go (err e, s') h = (
        subst (In a)
            (sym
              (laws.transaction_err (collect_transaction g (now - hour)) e s s' h Table.artifacts))
            m,
        refl,
      )
      go (ok found, s') h =
          let (stays, others) =
            collect_transaction_sound g laws (now - hour) found s s'
              (laws.transaction_ok (collect_transaction g (now - hour)) found s s' h) distinct a m
              needed in
          (
            stays,
            collect_files-Spares d disk_laws a.storage_key g laws a refl s' stays (now - hour)
                cancelled found root (distinct.no_upload a m) others,
          )
