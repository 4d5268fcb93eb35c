-- ===== src/Content/Files/Collector.antt =====
-- `Collect` of `internal/content/files.go`: expired previews, artifacts that nothing refers to, and
-- files without an artifact are removed once they are an hour old. `cancelled` is what `ctx.Err()`
-- answers in the round of an entry.
use Prim.Native.Char.{code}
use Prim.Native.String.{len}
use cotests.Prelude.{
  ℕ, ◌+◌, ◌-◌, String, Bool, true, not, ◌&&◌, ◌||◌, Option, none, some, List, [], ◌∷◌, ◌==◌,
  if◌then◌else◌, any, ltb, leb, str_eq,
}
use cotests.Outcome.{Error, Result, ok, err, forbidden}
use cotests.Outcome.Action.{Action, pure, ask, ◌>>=◌, ◌>>◌}
use cotests.Db.Models.{User, ProblemRevision, TestCase, ImportPreview, Artifact, Table, has_id}
use cotests.Db.Gorm.{Gorm}
use cotests.Content.Members.{admin}
use cotests.Content.Reading.{uses, has_pdf}
use cotests.Artifact.Directory.{Disk, File}
use cotests.Artifact.{
  World, Pass, and_then, over_entries, is_not_exist, remove_key, collect_temporary,
}
use cotests.Content.Files.Archives.{hour}

abbrev pub expired_before : ℕ → ImportPreview → Bool
expired_before cutoff p = ltb p.expires_at cutoff

-- the condition of the query, with its three subqueries
abbrev pub unused : ℕ → List ProblemRevision → List TestCase → List ImportPreview → Artifact → Bool
unused cutoff revisions tests previews a =
    ltb a.created_at cutoff
    && not (any (has_pdf a.id) revisions)
    && not (any (uses a.id) tests)
    && not (any (λ p. p.artifact_id == a.id) previews)

-- hex.DecodeString accepts the text, whose length is even
unfoldable pub is_hex : String → Bool
is_hex String.[] = true
is_hex (String.◌∷◌ c s) =
    (leb 0x30 (code c) && leb (code c) 0x39
      || leb 0x61 (code c) && leb (code c) 0x66
      || leb 0x41 (code c) && leb (code c) 0x46)
    && is_hex s

abbrev pub stored_as : String → Artifact → Bool
stored_as key a = str_eq a.storage_key key

module _ (g : Gorm) where
  open g use {State, rows, find, delete}

  abbrev pub find_unused : ℕ → State → Result (List Artifact)
  find_unused cutoff s =
      find Table.artifacts
        (unused cutoff (rows Table.revisions s) (rows Table.test_cases s) (rows Table.previews s)) s

  unfoldable pub delete_all : List Artifact → Action State (Unit {0})
  delete_all [] = pure tt
  delete_all (item ∷ l) = do delete Table.artifacts (has_id Table.artifacts item.id); delete_all l

  unfoldable pub collect_transaction : ℕ → Action State (List Artifact)
  unfolding delete_all
  collect_transaction cutoff = do
    delete Table.previews (expired_before cutoff)
    found ← ask (find_unused cutoff)
    delete_all found
    pure found

module _ (d : Disk) (g : Gorm) where
  open d use {Root, read_dir, info}
  open g use {State, count, transaction}

  -- a removal, counted; a file that was not there counts too
  abbrev pub unlinked : Result (Unit {0}) × Root → ℕ → Pass d
  unlinked (ok u, root) removed = (removed + 1, ok tt, root)
  unlinked (err e, root) removed = (
    if is_not_exist e then removed + 1 else removed,
    if is_not_exist e then ok tt else err e,
    root,
  )

  unfoldable pub unlink : List Artifact → ℕ → Root → Pass d
  unlink [] removed root = (removed, ok tt, root)
  unlink (item ∷ l) removed root =
      and_then d (unlinked (remove_key d item.storage_key root) removed) (unlink l)

  -- a file that is old enough, by the number of its artifacts
  abbrev pub unowned : String → Result ℕ → ℕ → Root → Pass d
  unowned name (err e) removed root = (removed, err e, root)
  unowned name (ok n) removed root =
      if n == 0 then unlinked (remove_key d name root) removed else (removed, ok tt, root)

  module _ (cutoff : ℕ) (cancelled : String → Option Error) (s : State) where
    abbrev pub old_file : String → Result File → ℕ → Root → Pass d
    old_file name (err e) removed root = (removed, err e, root)
    old_file name (ok file) removed root =
        if file.is_regular && ltb file.mod_time cutoff
        then unowned name (count Table.artifacts (stored_as name) s) removed root
        else (removed, ok tt, root)

    abbrev pub unless_cancelled : Option Error → String → ℕ → Root → Pass d
    unless_cancelled (some e) name removed root = (removed, err e, root)
    unless_cancelled none name removed root =
        if (len name == 64) && is_hex name
        then old_file name (info name root) removed root
        else (removed, ok tt, root)

    unfoldable pub orphans : List (String × Bool) → ℕ → Root → Pass d
    orphans [] removed root = (removed, ok tt, root)
    orphans ((name, is_dir) ∷ l) removed root =
        and_then d (unless_cancelled (cancelled name) name removed root) (orphans l)

    -- what follows the transaction
    unfoldable pub collect_files : List Artifact → Root → Pass d
    unfolding unlink orphans
    collect_files found root = and_then d (unlink found 0 root) (λ removed root₁.
        and_then d (more removed (collect_temporary d cutoff root₁))
          (λ removed₂ root₂. over_entries d (read_dir root₂) orphans removed₂ root₂))
      where
        more : ℕ → Pass d → Pass d
        more removed (n, r, root') = (removed + n, r, root')

  module _ (cutoff : ℕ) (cancelled : String → Option Error) where
    abbrev pub collected : Result (List Artifact) × State → Root → ℕ × Result (Unit {0}) × World d g
    collected (err e, s) root = (0, err e, (s, root))
    collected (ok found, s) root =
        let (n, r, root') = collect_files cutoff cancelled s found root in (n, r, (s, root'))

    unfoldable pub collect_before : World d g → ℕ × Result (Unit {0}) × World d g
    unfolding collect_transaction collect_files
    collect_before (s, root) = collected (transaction (collect_transaction g cutoff) s) root

  -- with the hour of grace
  unfoldable pub collect :
      ℕ → (String → Option Error) → Option User → World d g → ℕ × Result (Unit {0}) × World d g
  unfolding collect_before
  collect now cancelled actor w =
      if admin actor then collect_before (now - hour) cancelled w else (0, err forbidden, w)
