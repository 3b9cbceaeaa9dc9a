-- ===== src/Persist/File/Writing.antt =====
-- The state of `FileMoF` between saves and while it writes (raft/src/persistence.rs): what
-- `rewind` and `write` keep.
use Prim.Native.Nat.{zero}
use mathlib.Core.List.{append_assoc}
use miniraft.Prelude.{
  ℕ, suc, ◌<◌, ◌≡◌, ◌≢◌, ◌⊎◌, inl, inr, refl, sym, ap, ◌∙◌, arith, Bool, true, false, not, Option,
  none, some, List, [], ◌∷◌, ◌++◌, ◌&&◌, take, drop, ◌==◌, eq_refl, Bool-cases, take-append-drop,
}
use miniraft.Persist.File.{
  FilePath, FileSystem, update, append_file, create_new, Backing, FileMof, Calls, Done, new_backing,
  is_some, write_all, rewind, new_inner, replace_inner,
}
use miniraft.Persist.File.Kept.{Kept, Kept-change, Kept-append_file, Kept-create_new, Kept-weaken}

module _ (P : Option (List ℕ) → Type 0) (t : FilePath) where
  -- Between saves: the target's file is no longer written.
  pub record IsSafe (f : FileMof) (fs : FileSystem) : Type 0 where
    pub same : f.target ≡ t
    pub kept : Kept P (λ i. (i ≢ f.inner.file) ⊎ (f.inner.buffer ≡ [])) t fs
    pub known : f.inner.file < fs.next
    pub apart : f.inner.path ≢ t

  -- While a text is written to a file of its own.
  pub record Writing (text : List ℕ) (f : FileMof) (fs : FileSystem) : Type 0 where
    pub same : f.target ≡ t
    pub kept : Kept P (λ i. i ≢ f.inner.file) t fs
    pub known : f.inner.file < fs.next
    pub apart : f.inner.path ≢ t
    pub entry : fs.dir f.inner.path ≡ some f.inner.file
    pub whole : fs.content f.inner.file ++ f.inner.buffer ≡ text

-- What holds of a success, and what of a failure.
abbrev pub Outcome :
    (FileMof → FileSystem → Type 0) → (FileMof → FileSystem → Type 0) → Done → Type 0
Outcome A B (true, f, fs) = A f fs
Outcome A B (false, f, fs) = B f fs

-- A predicate of all the names.
abbrev pub AllNames : (FilePath → Type 0) → List (FilePath × Bool) → Type 0
AllNames N [] = Unit {0}
AllNames N (x ∷ xs) = N x.0 × AllNames N xs

-- An attempt that goes well is `create_new` at one of the names.
pub new_backing-elim :
    (R : Option (Backing × FileSystem) → Type 0) (N : FilePath → Type 0) (fs : FileSystem)
    (names : List (FilePath × Bool))
    → AllNames N names
    → ((p : FilePath) → N p → R (some (create_new p fs)))
    → R none
    → R (new_backing names fs)
unfolding new_backing
new_backing-elim R N fs [] apart new nothing = nothing
new_backing-elim R N fs ((p, allowed) ∷ more) (away, apart) new nothing =
    elim (Bool-cases (allowed && not (is_some (fs.dir p)))) [
      | inl created ↦ rw created (new p away)
      | inr not_created ↦ rw not_created (new_backing-elim R N fs more apart new nothing)
    ]

take-nil : (n : ℕ) → take {A = ℕ} n [] ≡ []
take-nil zero = refl
take-nil (suc n) = refl

-- Some of a buffer is handed on, and the rest is kept.
spill-whole :
    (file n : ℕ) (bytes : List ℕ) (content : ℕ → List ℕ)
    → update file (content file ++ take n bytes) content file ++ drop n bytes
      ≡ content file ++ bytes
spill-whole file n bytes content =
    let here : (file == file) ≡ true = ground arith in
    rw here (
      append_assoc (content file) (take n bytes) (drop n bytes)
      ∙ ap (λ b. content file ++ b) (take-append-drop n bytes))

-- The old file's bytes are not the new one's.
new_empty :
    (old new : ℕ) (bytes : List ℕ) (content : ℕ → List ℕ)
    → old < new
    → update old (update new [] content old ++ bytes) (update new [] content) new ++ [] ≡ []
new_empty old new bytes content lt =
    let apart : (new == old) ≡ false = ground arith in
    let here : (new == new) ≡ true = ground arith in rw (apart, here) refl

pub update_here : (i : ℕ) (bytes : List ℕ) (f : ℕ → List ℕ) → update i bytes f i ≡ bytes
update_here i bytes f = let here : (i == i) ≡ true = ground arith in rw here refl

module _ {P : Option (List ℕ) → Type 0} {t : FilePath} where
  new_inner-Writing :
      (parent : FilePath → Option FilePath) (calls : Calls) (f : FileMof) (fs : FileSystem)
      → AllNames (λ p. p ≢ t) (calls.first ∷ calls.second ∷ calls.third ∷ [])
      → IsSafe P t f fs
      → Outcome (Writing P t []) (IsSafe P t) (new_inner parent calls f fs)
  new_inner-Writing parent calls f fs apart safe =
      new_backing-elim
        (λ o. Outcome (Writing P t []) (IsSafe P t) (replace_inner parent calls f o fs))
        (λ p. p ≢ t) fs _ apart
        (λ p away. record {
          same = safe.same;
          kept =
              Kept-weaken (λ o h. h) (λ i h. h.0)
                (Kept-append_file f.inner.file (take calls.partly f.inner.buffer)
                  (λ i h. written_nowhere i h.1) (Kept-create_new p away safe.kept));
          known = omega arith;
          apart = away;
          entry = rw (eq_refl p) refl;
          whole = new_empty f.inner.file fs.next _ fs.content (omega arith);
        })
        safe
    where
      written_nowhere :
          (i : ℕ)
          → (i ≢ f.inner.file) ⊎ (f.inner.buffer ≡ [])
          → (i ≢ f.inner.file) ⊎ (take calls.partly f.inner.buffer ≡ [])
      written_nowhere i (inl other) = inl other
      written_nowhere i (inr empty) = inr (ap (take calls.partly) empty ∙ take-nil calls.partly)

  pub rewind-Writing :
      (parent : FilePath → Option FilePath) (calls : Calls) (f : FileMof) (fs : FileSystem)
      → AllNames (λ p. p ≢ t) (calls.first ∷ calls.second ∷ calls.third ∷ [])
      → IsSafe P t f fs
      → Outcome (Writing P t []) (IsSafe P t) (rewind parent calls f fs)
  unfolding rewind
  rewind-Writing parent calls f fs apart safe =
      elim (Bool-cases (not (is_some (fs.dir f.inner.path)))) [
        | inl gone ↦ rw gone (new_inner-Writing parent calls f fs apart safe)
        | inr there_is ↦ rw there_is (elim (Bool-cases calls.removed) [
          | inl removed ↦ rw removed (
              new_inner-Writing parent calls f _ apart (record {
                same = safe.same;
                kept = Kept-change f.inner.path none safe.apart safe.kept;
                known = safe.known;
                apart = safe.apart;
              }))
          | inr refused ↦ rw refused safe
        ])
      ]

  pub write_all-Writing :
      (calls : Calls) (text : List ℕ) (f : FileMof) (fs : FileSystem)
      → Writing P t [] f fs
      → Outcome (Writing P t text) (IsSafe P t) (write_all calls text f fs)
  unfolding write_all
  write_all-Writing calls text f fs w = elim (Bool-cases calls.written) [
    | inl written ↦ rw written (record {
      same = w.same;
      kept = kept text;
      known = w.known;
      apart = w.apart;
      entry = w.entry;
      whole =
          spill-whole f.inner.file calls.spilled (f.inner.buffer ++ text) fs.content
          ∙ sym (append_assoc (fs.content f.inner.file) f.inner.buffer text)
          ∙ ap (λ b. b ++ text) w.whole;
    })
    | inr refused ↦ rw refused (record {
      same = w.same;
      kept = Kept-weaken (λ o h. h) (λ i h. inl h) (kept (take calls.partly text));
      known = w.known;
      apart = w.apart;
    })
  ]
    where
      kept :
          (bytes : List ℕ)
          → Kept P
              (λ i. i ≢ f.inner.file)
              t
              (append_file f.inner.file (take calls.spilled (f.inner.buffer ++ bytes)) fs)
      kept bytes =
          Kept-append_file f.inner.file (take calls.spilled (f.inner.buffer ++ bytes))
            (λ i h. inl h) w.kept
