-- ===== src/Artifact/Directory/Memory.antt =====
-- A directory in memory on which every call works that can: the one that the tests and the examples
-- of the theorems use. It has room for one temporary file at a time.
use cotests.Prelude.{
  ◌≡◌, ◌≢◌, refl, sym, ap, ◌∙◌, String, true, false, Option, none, some, List, [], keep, str_eq,
  eq_iff, inl, inr, Bool-cases, map,
}
use cotests.Prelude.Assoc.{
  lookup, put, other_key, lookup-put_same, lookup-put_other, lookup-keep_other, lookup-keep_same,
}
use cotests.Outcome.{Error, Result, ok, err, not_exist, failure}
use cotests.Outcome.Action.{Action}
use cotests.Source.{Bytes, Source}
use cotests.Artifact.Keys.{has_prefix, is_upload}
use cotests.Artifact.Directory.{Disk, DiskLaws, File, CanRemove}

abbrev pub Files : Type 0
Files = List (String × File)

abbrev upload_name : String
upload_name = ".upload-0"

abbrev new_file : Bytes → File
new_file content = record { content = content; is_regular = true; mod_time = 0 }

abbrev without : String → Files → Files
without name = keep (other_key name)

abbrev done : Action Files (Unit {0})
done files = (ok tt, files)

abbrev made : Option File → Files → Result String × Files
made none files = (ok upload_name, put upload_name (new_file []) files)
made (some file) files = (err (failure "exists"), files)

abbrev renamed : String → String → Option File → Files → Result (Unit {0}) × Files
renamed a b none files = (err not_exist, files)
renamed a b (some file) files = (ok tt, put b file (without a files))

abbrev removed : String → Option File → Files → Result (Unit {0}) × Files
removed name none files = (err not_exist, files)
removed name (some file) files = (ok tt, without name files)

abbrev found : Option File → Result File
found none = err not_exist
found (some file) = ok file

abbrev opened : Option File → Result Source
opened none = err not_exist
opened (some file) = ok record { content = file.content; broken = none }

abbrev pub memory_disk : Disk
memory_disk = record {
  Root = Files;
  look = lookup;
  make_dir = done;
  create_temp = λ files. made (lookup upload_name files) files;
  write = λ name content files. (ok tt, put name (new_file content) files);
  sync = λ name. done;
  close = λ name. done;
  chmod = λ name. done;
  rename = λ a b files. renamed a b (lookup a files) files;
  remove = λ name files. removed name (lookup name files) files;
  read_dir = λ files. ok (map (λ entry. (entry.0, false)) files);
  info = λ name files. found (lookup name files);
  open_file = λ name files. opened (lookup name files);
}

apart : (a b : String) → a ≢ b → str_eq a b ≡ false
apart a b ne = elim (Bool-cases (str_eq a b)) [
  | inl same ↦ absurd (ne ((eq_iff a b).0 same))
  | inr other ↦ other
]

state_of :
    {A : Type 0} {x y : Result A} {s s' : Files}
    → ◌≡◌ {A = Result A × Files} (x, s) (y, s')
    → s' ≡ s
state_of h = sym (ap (λ z. z.1) h)

never :
    {A : Type 0} {a : A} {e : Error} {s s' : Files}
    → ◌≡◌ {A = Result A × Files} (ok a, s) (err e, s')
    → ⊥
never h = cc

never_ok :
    {A : Type 0} {a : A} {e : Error} {s s' : Files}
    → ◌≡◌ {A = Result A × Files} (err e, s) (ok a, s')
    → ⊥
never_ok h = cc

put_other :
    (name n : String) (file : File) (s s' : Files)
    → s' ≡ put name file s
    → n ≢ name
    → lookup n s' ≡ lookup n s
put_other name n file s s' e ne = ap (lookup n) e ∙ lookup-put_other n name file s (apart n name ne)

remove_fails :
    (name : String) (e : Error) (o : Option File) (s s' : Files)
    → removed name o s ≡ (err e, s')
    → (s' ≡ s) × (o ≡ none)
remove_fails name e none s s' h = (state_of h, refl)
remove_fails name e (some f) s s' h = absurd (never h)

pub memory_disk-DiskLaws : DiskLaws memory_disk
unfolding is_upload has_prefix
memory_disk-DiskLaws = record {
  make_dir_files = λ x s s' h n. ap (lookup n) (state_of h);
  create_temp_ok = λ name s s' h. temp_ok name (lookup upload_name s) s s' refl h;
  create_temp_err = λ e s s' h n. temp_err e (lookup upload_name s) s s' h n;
  write_ok = λ name b s s' h.
      (new_file b, ap (lookup name) (state_of h) ∙ lookup-put_same name (new_file b) s, refl);
  write_frame = λ name b x s s' h n ne. put_other name n (new_file b) s s' (state_of h) ne;
  sync_files = λ name x s s' h n. ap (lookup n) (state_of h);
  close_files = λ name x s s' h n. ap (lookup n) (state_of h);
  chmod_files = λ name x s s' h n. ap (lookup n) (state_of h);
  rename_ok = λ a b s s' h ne. rename_moves a b (lookup a s) s s' refl h ne;
  rename_err = λ a b e s s' h n. rename_fails a b e (lookup a s) s s' h n;
  remove_ok = λ name s s' h. remove_takes name (lookup name s) s s' h;
  remove_err = λ name e s s' h n. ap (lookup n) (remove_fails name e (lookup name s) s s' h).0;
  info_ok = λ name s file h. found_some (lookup name s) file h;
  open_ok = λ name s source h. opened_some (lookup name s) source h;
}
  where
    temp_ok :
        (name : String) (o : Option File) (s s' : Files)
        → lookup upload_name s ≡ o
        → made o s ≡ (ok name, s')
        → (is_upload name ≡ true)
          × (lookup name s ≡ none)
          × ((n : String) → n ≢ name → lookup n s' ≡ lookup n s)
    temp_ok name none s s' e h =
        let same : upload_name ≡ name = ok_name (ap (λ z. z.0) h) in
        (
          sym (ap is_upload same) ∙ refl,
          sym (ap (λ z. lookup z s) same) ∙ e,
          λ n ne. put_other upload_name n (new_file []) s s' (state_of h) (λ k. ne (k ∙ same)),
        )
      where
        ok_name : {a b : String} → ◌≡◌ {A = Result String} (ok a) (ok b) → a ≡ b
        ok_name k = cc
    temp_ok name (some f) s s' e h = absurd (never_ok h)

    temp_err :
        (e : Error) (o : Option File) (s s' : Files)
        → made o s ≡ (err e, s')
        → (n : String) → lookup n s' ≡ lookup n s
    temp_err e none s s' h n = absurd (never h)
    temp_err e (some f) s s' h n = ap (lookup n) (state_of h)

    rename_moves :
        (a b : String) (o : Option File) (s s' : Files)
        → lookup a s ≡ o
        → renamed a b o s ≡ (ok tt, s')
        → a ≢ b
        → (lookup b s' ≡ lookup a s)
          × (lookup a s' ≡ none)
          × ((n : String) → n ≢ a → n ≢ b → lookup n s' ≡ lookup n s)
    rename_moves a b none s s' e h ne = absurd (never_ok h)
    rename_moves a b (some f) s s' e h ne =
        let state = state_of h in
        (
          ap (lookup b) state ∙ lookup-put_same b f (without a s) ∙ sym e,
          ap (lookup a) state
              ∙ lookup-put_other a b f (without a s) (apart a b ne)
              ∙ lookup-keep_same a s,
          λ n na nb.
              ap (lookup n) state
              ∙ lookup-put_other n b f (without a s) (apart n b nb)
              ∙ lookup-keep_other n a s (apart n a na),
        )

    rename_fails :
        (a b : String) (e : Error) (o : Option File) (s s' : Files)
        → renamed a b o s ≡ (err e, s')
        → (n : String) → lookup n s' ≡ lookup n s
    rename_fails a b e none s s' h n = ap (lookup n) (state_of h)
    rename_fails a b e (some f) s s' h n = absurd (never h)

    remove_takes :
        (name : String) (o : Option File) (s s' : Files)
        → removed name o s ≡ (ok tt, s')
        → (lookup name s' ≡ none) × ((n : String) → n ≢ name → lookup n s' ≡ lookup n s)
    remove_takes name none s s' h = absurd (never_ok h)
    remove_takes name (some f) s s' h = (
      ap (lookup name) (state_of h) ∙ lookup-keep_same name s,
      λ n ne. ap (lookup n) (state_of h) ∙ lookup-keep_other n name s (apart n name ne),
    )

    found_some : (o : Option File) (file : File) → found o ≡ ok file → o ≡ some file
    found_some none file h = cc
    found_some (some f) file h = cc

    opened_some :
        (o : Option File) (source : Source)
        → opened o ≡ ok source
        → (file : File) × (o ≡ some file) × (source.content ≡ file.content)
    opened_some none source h = cc
    opened_some (some f) source h = (f, refl, ap (λ z. content_of z) (sym h))
      where
        content_of : Result Source → Bytes
        content_of (ok z) = z.content
        content_of (err e) = []

pub memory_disk-CanRemove : CanRemove memory_disk
memory_disk-CanRemove name e s s' h = (remove_fails name e (lookup name s) s s' h).1
