-- ===== src/PoolLog/Writes.antt =====
-- What a reader of the log file sees while the server writes it.
use red_team_coin.Base.{
  ◌≡◌, ◌≢◌, refl, sym, ap, ◌∙◌, ◌⊎◌, inl, inr, true, false, Option, none, some, List, [], ◌∷◌, ◌++◌,
  arith, if◌then◌else◌, Bool-cases, Option-cases, if_intro, length, length-append, Text, text,
}
use red_team_coin.PoolLog.{
  LogFile, failed_to_rename, Files, FileSystem, Written, rename_log, write_log, start,
}

-- What package os documents of WriteFile and Rename on the server's system: a write changes its
-- own file only, and holds the content when it succeeds; a rename replaces the new name by the old
-- one's file, or changes nothing when it fails.
pub record KeepsFileLaws (fs : FileSystem) : Type 0 where
  pub write_elsewhere :
      (path content p : Text) (files : Files)
      → p ≢ path
      → (fs.write_file path content files).0 p ≡ files p
  pub write_done :
      (path content : Text) (files : Files)
      → (fs.write_file path content files).1 ≡ true
      → (fs.write_file path content files).0 path ≡ some content
  pub rename_failed :
      (old new p : Text) (files : Files)
      → (fs.rename old new files).1 ≡ false
      → (fs.rename old new files).0 p ≡ files p
  pub rename_done :
      (old new : Text) (files : Files)
      → (fs.rename old new files).1 ≡ true
      → (fs.rename old new files).0 new ≡ files old
  pub rename_elsewhere :
      (old new p : Text) (files : Files)
      → p ≢ old
      → p ≢ new
      → (fs.rename old new files).0 p ≡ files p

abbrev pub Each : (Files → Type 0) → List Files → Type 0
Each P [] = Unit
Each P (files ∷ rest) = P files × Each P rest

abbrev pub temp_of : Text → Text
temp_of log_file = log_file ++ text ".tmp"

temp_of-other : (log_file : Text) → log_file ≢ temp_of log_file
temp_of-other log_file e = absurd (omega (arith, ap length e, length-append log_file (text ".tmp")))

-- The log file is replaced as a whole or not at all.
pub record IsAtomic (marshal : LogFile → Option Text) (log_file : Text) (entry : LogFile)
    (files : Files) (w : Written) : Type 0 where
  pub unseen : Each (λ f. f log_file ≡ files log_file) w.between
  pub whole :
      (w.error ≡ none) × (marshal entry ≢ none) × (w.after log_file ≡ marshal entry)
      ⊎ (w.error ≢ none) × (w.after log_file ≡ files log_file)
  pub elsewhere : (p : Text) → p ≢ log_file → p ≢ temp_of log_file → w.after p ≡ files p

module _ {fs : FileSystem} (laws : KeepsFileLaws fs) (marshal : LogFile → Option Text) where
  renamed-IsAtomic :
      (log_file content : Text) (entry : LogFile) (files written : Files)
      → marshal entry ≡ some content
      → written (temp_of log_file) ≡ some content
      → ((p : Text) → p ≢ temp_of log_file → written p ≡ files p)
      → IsAtomic marshal log_file entry files (record {
        between = written ∷ [];
        after = (fs.rename (temp_of log_file) log_file written).0;
        error =
            if (fs.rename (temp_of log_file) log_file written).1
            then none
            else some failed_to_rename;
      })
  renamed-IsAtomic log_file content entry files written e same other =
      let temp_file = temp_of log_file in
      let done = (fs.rename temp_file log_file written).1 in
      let kept = other log_file (temp_of-other log_file) in
      record {
        unseen = (kept, tt);
        whole = elim (Bool-cases done) [
          | inl d ↦ inl (
            ground (arith, d),
            (λ n. cc),
            laws.rename_done temp_file log_file written d ∙ same ∙ sym e,
          )
          | inr d ↦
              inr
                (ground (arith, d), laws.rename_failed temp_file log_file log_file written d ∙ kept)
        ];
        elsewhere = λ p not_log not_temp.
            laws.rename_elsewhere temp_file log_file p written not_temp not_log ∙ other p not_temp;
      }

  -- After WriteLog the log file is the new data as a whole, and there is no error, or it is what it
  -- was, and there is one. Until the last step it is what it was. Other files but the temporary one
  -- do not change.
  pub write_log-IsAtomic :
      (log_file : Text) (entry : LogFile) (files : Files)
      → IsAtomic marshal log_file entry files (write_log fs marshal log_file entry files)
  unfolding write_log rename_log
  write_log-IsAtomic log_file entry files = elim (Option-cases (marshal entry)) [
    | inl e ↦
        rw (e, write_log)
          (record {
            unseen = tt;
            whole = inr (λ n. cc, refl);
            elsewhere = λ p not_log not_temp. refl;
          })
    | inr (content, e) ↦
        let temp_file = temp_of log_file in
        let written = fs.write_file temp_file content files in
        let other =
          λ (p : Text) (h : p ≢ temp_file). laws.write_elsewhere temp_file content p files h in
        rw (e, write_log)
          (if_intro (λ w. IsAtomic marshal log_file entry files w) written.1
            (λ done.
              renamed-IsAtomic log_file content entry files written.0 e
                (laws.write_done temp_file content files done) other)
            (λ failed. record {
              unseen = tt;
              whole = inr (λ n. cc, other log_file (temp_of-other log_file));
              elsewhere = λ p not_log not_temp. other p not_temp;
            }))
  ]

  abbrev pub IsOneOf : Option Text → List LogFile → Type 0
  IsOneOf content [] = ⊥
  IsOneOf content (entry ∷ ticks) =
      (marshal entry ≢ none) × (content ≡ marshal entry) ⊎ IsOneOf content ticks

  -- However many of its writes fail, the goroutine of Start leaves the log file as it was before, or
  -- as the whole of what one of the ticks had to write.
  pub start_whole :
      (log_file : Text) (ticks : List LogFile) (files : Files)
      → (start fs marshal log_file ticks files log_file ≡ files log_file)
        ⊎ IsOneOf (start fs marshal log_file ticks files log_file) ticks
  unfolding start
  start_whole log_file [] files = inl refl
  start_whole log_file (entry ∷ ticks) files =
      let next = (write_log fs marshal log_file entry files).after in
      elim (start_whole log_file ticks next) [
        | inr later ↦ inr (inr later)
        | inl same ↦ elim ((write_log-IsAtomic log_file entry files).whole) [
          | inl (fine, marshals, e) ↦ inr (inl (marshals, same ∙ e))
          | inr (failed, e) ↦ inl (same ∙ e)
        ]
      ]
