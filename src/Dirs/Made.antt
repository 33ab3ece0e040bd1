-- ===== src/Dirs/Made.antt =====
-- zbaselib.c: what zbaselib_createdir leaves in the file system.
use zbaselib.Prelude.{
  ℕ, ◌<◌, Bool, true, false, some, ◌==◌, if◌then◌else◌, List, [], ◌∷◌, ◌++◌, ◌≡◌, ◌⊎◌, inl, inr,
  refl, sym, subst, ap, arith, ◌&&◌, length, length-append, Bool-cases,
}
use zbaselib.Prelude.Int.{ℤ, pos, negsuc}
use zbaselib.Dirs.{DirName, slash, last_is_slash, createdir_loop, createdir_from, createdir}

-- The names that end before a slash from some index on
unfoldable pub parents : (done rest : DirName) → List DirName
parents done [] = []
parents done (c ∷ cs) =
    if c == slash then done ∷ parents (done ++ (c ∷ [])) cs else parents (done ++ (c ∷ [])) cs

-- The name with a slash at its end
unfoldable pub closed : DirName → DirName
closed d = if last_is_slash d then d else d ++ (slash ∷ [])

-- A directory's name and those above it, but for the one before a slash that comes first
unfoldable pub above : DirName → List DirName
unfolding parents
above [] = []
above (c ∷ cs) = parents (c ∷ []) cs

module _ {S : Type 0} (access : DirName → S → Bool) (mkdir : DirName → S → Bool × S) where
  unfoldable pub all_there : List DirName → S → Bool
  all_there [] s = true
  all_there (d ∷ ds) s = access d s && all_there ds s

  -- A run that keeps what was there before, and ends well with all of `ds` there, or at a mkdir that fails for
  -- one that was not there, with all in front of it there
  pub record Made (ds : List DirName) (s : S) (run : ℤ × S) : Type 0 where
    pub kept : (e : DirName) → access e s ≡ true → access e run.1 ≡ true
    pub ended :
        ((run.0 ≡ pos 0) × (all_there ds run.1 ≡ true))
        ⊎ ((run.0 ≡ negsuc 0)
            × (front : List DirName) × (d : DirName) × (back : List DirName) × (before : S) × (ds
                ≡ front ++ (d ∷ back))
            × (all_there front before ≡ true)
            × ((e : DirName) → access e s ≡ true → access e before ≡ true)
            × (access d before ≡ false)
            × ((mkdir d before).0 ≡ false)
            × ((mkdir d before).1 ≡ run.1))

  step_to :
      {ds ds' : List DirName} {s : S} {run run' : ℤ × S}
      → ds ≡ ds'
      → run ≡ run'
      → Made ds' s run'
      → Made ds s run
  step_to {ds' = ds'} {s = s} {run = run} e r m =
      subst (λ ds. Made ds s run) (sym e) (subst (λ run. Made ds' s run) (sym r) m)

  then_there :
      (d : DirName) (ds : List DirName) (s s1 : S) (run : ℤ × S)
      → access d s1 ≡ true
      → ((e : DirName) → access e s ≡ true → access e s1 ≡ true)
      → Made ds s1 run
      → Made (d ∷ ds) s run
  unfolding all_there
  then_there d ds s s1 run h k m = record {
    kept = λ e g. m.kept e (k e g);
    ended = elim m.ended [
      | inl (z, all) ↦ inl (z, ground (arith, all, m.kept d h))
      | inr (z, front, d', back, before, split, all, same, absent, failed, last) ↦ inr (
        z,
        d ∷ front,
        d',
        back,
        before,
        ap (λ l. d ∷ l) split,
        ground (arith, all, same d h),
        (λ e g. same e (k e g)),
        absent,
        failed,
        last,
      )
    ];
  }

  -- A mkdir that does not fail makes the directory, and no mkdir takes one away.
  module _ (makes : (d : DirName) → (s : S) → (mkdir d s).0 ≡ true → access d (mkdir d s).1 ≡ true)
      (keeps : (d e : DirName) → (s : S) → access e s ≡ true → access e (mkdir d s).1 ≡ true) where
    loop-Made :
        (done rest : DirName)
        → (s : S) → Made (parents done rest) s (createdir_loop access mkdir done rest s)
    unfolding createdir_loop parents all_there
    loop-Made done [] s = record { kept = λ e h. h; ended = inl (refl, refl) }
    loop-Made done (c ∷ cs) s =
        let next : DirName = done ++ (c ∷ []) in
        elim (Bool-cases (c == slash)) [
          | inr other ↦
              step_to (ground (arith, other)) (ground (arith, other)) (loop-Made next cs s)
          | inl e ↦ elim (Bool-cases (access done s)) [
            | inl there ↦ step_to (ground (arith, e)) (ground (arith, e, there)) (
                then_there done (parents next cs) s s (createdir_loop access mkdir next cs s) there
                  (λ d h. h) (loop-Made next cs s))
            | inr absent ↦ elim (Bool-cases (mkdir done s).0) [
              | inl made ↦ step_to (ground (arith, e)) (ground (arith, e, absent, made)) (
                  then_there done (parents next cs) s (mkdir done s).1
                    (createdir_loop access mkdir next cs (mkdir done s).1) (makes done s made)
                    (λ d h. keeps done d s h) (loop-Made next cs (mkdir done s).1))
              | inr failed ↦
                  step_to (ground (arith, e)) (ground (arith, e, absent, failed)) (record {
                    kept = λ d h. keeps done d s h;
                    ended = inr (
                      refl,
                      [],
                      done,
                      parents next cs,
                      s,
                      refl,
                      refl,
                      (λ d h. h),
                      absent,
                      failed,
                      refl,
                    );
                  })
            ]
          ]
        ]

    -- Where mkdir makes the directory if it does not fail, and removes none, a call with a name of 1 to 254
    -- characters returns 0 with the directory and all above it there, or -1 after a mkdir that failed for the
    -- first of these that was not there and could not be made; what was there before stays.
    pub createdir-Made :
        (c : ℕ)
        → (cs : DirName) → (s : S) → length (c ∷ cs) < 255
        → (run : ℤ × S) × (createdir access mkdir (c ∷ cs) s ≡ some run)
          × Made (above (closed (c ∷ cs))) s run
    unfolding createdir createdir_from closed above
    createdir-Made c cs s lt = elim (Bool-cases (last_is_slash (c ∷ cs))) [
      | inl e ↦ (
        createdir_loop access mkdir (c ∷ []) cs s,
        ground (arith, e),
        step_to (ground (arith, e)) refl (loop-Made (c ∷ []) cs s),
      )
      | inr e ↦ (
        createdir_loop access mkdir (c ∷ []) (cs ++ (slash ∷ [])) s,
        ground (arith, e, length-append cs (slash ∷ [])),
        step_to (ground (arith, e)) refl (loop-Made (c ∷ []) (cs ++ (slash ∷ [])) s),
      )
    ]
