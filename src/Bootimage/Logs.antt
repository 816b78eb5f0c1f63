-- ===== src/Bootimage/Logs.antt =====
-- How bootimage/src/main.rs keeps the log of the run before.
use Prim.Native.String.{String}
use steelmind_os.Base.{
  ◌≡◌, ◌≢◌, refl, sym, ◌∙◌, Bool, true, false, some, Bool-cases, inl, inr, Option, none, List, [],
  ◌∷◌, ℕ,
}
use steelmind_os.Bootimage.{
  Action, runs, creates_dir, makes_ram_disk, makes_image, removes, renames, Host, goes, act, log,
  last_log, ◌>>=◌,
}
use steelmind_os.Bootimage.Steps.{rotate_logs}

-- `std::fs` on files `F`: a file that is removed is gone, one that is renamed takes the place of the other, and
-- no other file changes.
pub record Files (F : Type 0) : Type 0 where
  pub content : F → String → Option (List ℕ)
  pub remove : String → F → F
  pub rename : (old new : String) → F → F
  pub removed : (path : String) (f : F) → content (remove path f) path ≡ none
  pub remove_keeps :
      (path other : String) (f : F) → path ≢ other → content (remove path f) other ≡ content f other
  pub renamed : (old new : String) (f : F) → content (rename old new f) new ≡ content f old
  pub moved : (old new : String) (f : F) → old ≢ new → content (rename old new f) old ≡ none
  pub rename_keeps :
      (old new other : String) (f : F)
      → old ≢ other
      → new ≢ other
      → content (rename old new f) other ≡ content f other

abbrev is_some : Option (List ℕ) → Bool
is_some none = false
is_some (some text) = true

logs_differ : log ≢ last_log
logs_differ e = cc

module _ {F : Type 0} (fs : Files F) where
  -- The files after what `rotate_logs` has done; the other actions are not among it.
  abbrev pub replay : List Action → F → F
  replay [] f = f
  replay (removes path ∷ done) f = replay done (fs.remove path f)
  replay (renames old new ∷ done) f = replay done (fs.rename old new f)
  replay (runs cmd ∷ done) f = replay done f
  replay (creates_dir path ∷ done) f = replay done f
  replay (makes_ram_disk name ∷ done) f = replay done f
  replay (makes_image loader kernel path ∷ done) f = replay done f

  -- What was the log is the last log, there is no log, and no other file has changed.
  pub record Rotated (f f' : F) : Type 0 where
    pub kept : fs.content f' last_log ≡ fs.content f log
    pub fresh : fs.content f' log ≡ none
    pub others :
        (path : String) → log ≢ path → last_log ≢ path → fs.content f' path ≡ fs.content f path

  rename-Rotated :
      (f g : F)
      → fs.content g log ≡ fs.content f log
      → ((path : String) → log ≢ path → last_log ≢ path → fs.content g path ≡ fs.content f path)
      → Rotated f (fs.rename log last_log g)
  rename-Rotated f g same others = record {
    kept = fs.renamed log last_log g ∙ same;
    fresh = fs.moved log last_log g logs_differ;
    others = λ path a b. fs.rename_keeps log last_log path g a b ∙ others path a b;
  }

  -- The machine keeps these files: `exists` looks for a file, and removing or renaming one goes well exactly if it is
  -- there.
  pub record Keeps (host : Host) (f : F) : Type 0 where
    pub looks : (path : String) → host.exists path ≡ is_some (fs.content f path)
    pub may_remove : (path : String) → host.succeeds (removes path) ≡ is_some (fs.content f path)
    pub may_rename :
        (old new : String) → host.succeeds (renames old new) ≡ is_some (fs.content f old)

  -- On a machine with these files, among them a log: whether there is a last log or not, the logs are rotated without a panic,
  -- so that the log has become the last log.
  pub rotate_logs-Rotated :
      (host : Host) (f : F) (text : List ℕ)
      → Keeps host f
      → fs.content f log ≡ some text
      → (done : List Action) × (rotate_logs host [] ≡ goes tt done) × Rotated f (replay done f)
  unfolding rotate_logs act
  rotate_logs-Rotated host f text k there =
      let there' : is_some (fs.content f log) ≡ true = rw there refl in
      let e : host.exists log ≡ true = k.looks log ∙ there' in
      let moves : host.succeeds (renames log last_log) ≡ true =
        k.may_rename log last_log ∙ there' in
      elim (Bool-cases (is_some (fs.content f last_log))) [
        | inl old ↦
            rw (e, k.looks last_log, old, ◌>>=◌, k.may_remove last_log, old, moves)
              (
                removes last_log ∷ renames log last_log ∷ [],
                refl,
                rename-Rotated f (fs.remove last_log f)
                    (fs.remove_keeps last_log log f (λ d. logs_differ (sym d)))
                    (λ path a b. fs.remove_keeps last_log path f b),
              )
        | inr no_old ↦
            rw (e, k.looks last_log, no_old, moves)
              (renames log last_log ∷ [], refl, rename-Rotated f f refl (λ path a b. refl))
      ]
