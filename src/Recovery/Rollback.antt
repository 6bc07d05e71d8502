-- ===== src/Recovery/Rollback.antt =====
-- The windows that `Recovery::rollback` can fall back to.
use dmludp.Prelude.{
  ℕ, ◌-◌, ◌*◌, ◌≡◌, refl, ◌∙◌, sym, subst, Bool, true, false, Option, some, none, List, [], ◌∷◌,
  ◌⊎◌, ◌>>=◌, arith, Bool-cases, inl, inr,
}
use dmludp.Floats.{Floats}
use dmludp.Config.{Config}
use dmludp.Recovery.{
  Recovery, new, open_window, cwnd, set_insert, pop_last, update_win, flagged, winadd,
  update_app_limited, rollback, ini_win,
}
use dmludp.Recovery.Cubic.{reset, collapse_cwnd, checkpoint}
use dmludp.Recovery.Cwnd.{cwnd_lem, opened}

abbrev AllZero : List ℕ → Type 0
AllZero [] = Unit
AllZero (x ∷ xs) = (x ≡ 0) × AllZero xs

set_insert-AllZero : (n : ℕ) (xs : List ℕ) → n ≡ 0 → AllZero xs → AllZero (set_insert n xs)
unfolding set_insert
set_insert-AllZero n [] e z = (e, tt)
set_insert-AllZero n (x ∷ xs) e (z, zs) = ground (arith, set_insert-AllZero n xs e zs)

put_back :
    (x : ℕ) (rest : List ℕ) (m : ℕ) (o : Option (ℕ × List ℕ))
    → x ≡ 0
    → ((m' : ℕ) (rest' : List ℕ) → o ≡ some (m', rest') → (m' ≡ 0) × AllZero rest')
    → ◌>>=◌ {B = ℕ × List ℕ} o (λ p. some (p.0, x ∷ p.1)) ≡ some (m, rest)
    → (m ≡ 0) × AllZero rest
put_back x rest m none z inner e = cc
put_back x rest m (some (m', rest')) z inner e =
    let (z', zs) = inner m' rest' refl in
    let same : x ∷ rest' ≡ rest = cc in (omega (arith, number), subst AllZero same (z, zs))
  where
    number : m' ≡ m
    number = cc

pop_last-AllZero :
    (xs rest : List ℕ) (m : ℕ) → AllZero xs → pop_last xs ≡ some (m, rest) → (m ≡ 0) × AllZero rest
unfolding pop_last
pop_last-AllZero [] rest m z e = cc
pop_last-AllZero (x ∷ []) rest m (z, zs) e = ground arith
pop_last-AllZero (x ∷ y ∷ xs) rest m (z, zs) e =
    put_back x rest m (pop_last (y ∷ xs)) z
      (λ m' rest' e'. pop_last-AllZero (y ∷ xs) rest' m' zs e') e

module _ (f : Floats) where
  -- One call of a method. In a call of `update_win` the increment, a number of bytes, differs from
  -- the number of packets `num` with which the code compares it.
  pub data Step (r : Recovery f) : Recovery f → Type 0 where
    updated :
        (weights : f.F32) (num : f.F64) (r' : Recovery f)
        → f.eq (winadd f r weights) num ≡ false
        → update_win f r weights num ≡ some r'
        → Step r r'
    window_opened : (w : ℕ) (r' : Recovery f) → cwnd f r ≡ some (w, r') → Step r r'
    rolled_back : Step r (rollback f r).1
    limited : (v : Bool) → Step r (update_app_limited f r v)
    was_reset : (r' : Recovery f) → reset f r ≡ some r' → Step r r'
    collapsed : (r' : Recovery f) → collapse_cwnd f r ≡ some r' → Step r r'
    checked : Step r (checkpoint f r)

  pub data Reach (r : Recovery f) : Recovery f → Type 0 where
    here : Reach r r
    next : {t u : Recovery f} → Reach r t → Step t u → Reach r u

  -- Only windows of 0 bytes are remembered: until the first `update_win` nothing was counted, and
  -- from then on the flag stops `cwnd` from remembering any window.
  record IsStale (r : Recovery f) : Type 0 where
    zeros : AllZero r.former_win_vecter
    idle : r.roll_back_flag ≡ false → (r.incre_win ≡ 0) × (r.decre_win ≡ 0)

  new-IsStale : (c : Config) (r : Recovery f) → new f c ≡ some r → IsStale r
  new-IsStale c r e =
      let (none_yet, i, d) = new_fields in
      record { zeros = subst AllZero (sym none_yet) tt; idle = λ h. (i, d) }
    where
      new_fields : (r.former_win_vecter ≡ []) × (r.incre_win ≡ 0) × (r.decre_win ≡ 0)
      new_fields = unfold new in ground arith

  update_win_fields :
      (r r' : Recovery f) (weights : f.F32) (num : f.F64)
      → f.eq (winadd f r weights) num ≡ false
      → update_win f r weights num ≡ some r'
      → (r'.former_win_vecter ≡ r.former_win_vecter) × (r'.roll_back_flag ≡ true)
  unfolding update_win
  update_win_fields r r' weights num d e = ground arith

  cwnd_fields :
      (r r' : Recovery f) (w : ℕ)
      → cwnd f r ≡ some (w, r')
      → r.roll_back_flag ≡ true
      → (r'.former_win_vecter ≡ r.former_win_vecter) × (r'.roll_back_flag ≡ true)
  unfolding cwnd open_window
  cwnd_fields r r' w e h = ground arith

  cwnd-IsStale : (r r' : Recovery f) (w : ℕ) → cwnd f r ≡ some (w, r') → IsStale r → IsStale r'
  cwnd-IsStale r r' w e s = elim (Bool-cases r.roll_back_flag) [
    | inl flagged ↦
        let (same, flag) = cwnd_fields r r' w e flagged in
        record { zeros = subst AllZero (sym same) s.zeros; idle = λ h. cc }
    | inr clear ↦
        let (i, d) = s.idle clear in
        let same : opened f r ≡ r' = cc (e, cwnd_lem f r (omega arith)) in
        subst IsStale same (record {
          zeros = rw clear (
              set_insert-AllZero (2 * r.incre_win - r.decre_win) r.former_win_vecter (omega arith)
                s.zeros);
          idle = λ h. (refl, refl);
        })
  ]

  rollback-none :
      (r : Recovery f)
      → pop_last r.former_win_vecter ≡ none
      → rollback f r ≡ (ini_win, record r { congestion_window = ini_win })
  unfolding rollback
  rollback-none r e = rw (e, rollback)

  rollback-some :
      (r : Recovery f) (m : ℕ) (rest : List ℕ)
      → pop_last r.former_win_vecter ≡ some (m, rest)
      → rollback f r ≡ (m, record r { congestion_window = m; former_win_vecter = rest })
  unfolding rollback
  rollback-some r m rest e = rw (e, rollback)

  -- On a stale state `rollback` gives 0 or the initial window, and leaves a stale state.
  rollback-IsStale :
      (r : Recovery f)
      → IsStale r
      → (((rollback f r).0 ≡ 0) ⊎ ((rollback f r).0 ≡ ini_win)) × IsStale (rollback f r).1
  rollback-IsStale r s = by_cases (pop_last r.former_win_vecter) refl
    where
      by_cases :
          (o : Option (ℕ × List ℕ))
          → pop_last r.former_win_vecter ≡ o
          → (((rollback f r).0 ≡ 0) ⊎ ((rollback f r).0 ≡ ini_win)) × IsStale (rollback f r).1
      by_cases none e = rw (rollback-none r e) (inr refl, record { zeros = s.zeros; idle = s.idle })
      by_cases (some (m, rest)) e =
          let (zero_win, zs) = pop_last-AllZero r.former_win_vecter rest m s.zeros e in
          rw (rollback-some r m rest e) (inl zero_win, record { zeros = zs; idle = s.idle })

  reset-IsStale : (r r' : Recovery f) → reset f r ≡ some r' → IsStale r → IsStale r'
  reset-IsStale r r' e s =
      let (w, g, i, d) = kept in
      record {
        zeros = subst AllZero (sym w) s.zeros;
        idle = λ h. let (a, b) = s.idle (sym g ∙ h) in (i ∙ a, d ∙ b);
      }
    where
      kept :
          (r'.former_win_vecter ≡ r.former_win_vecter)
          × (r'.roll_back_flag ≡ r.roll_back_flag)
          × (r'.incre_win ≡ r.incre_win)
          × (r'.decre_win ≡ r.decre_win)
      kept = unfold reset in ground arith

  collapse_cwnd-IsStale : (r r' : Recovery f) → collapse_cwnd f r ≡ some r' → IsStale r → IsStale r'
  collapse_cwnd-IsStale r r' e s =
      let (w, g, i, d) = kept in
      record {
        zeros = subst AllZero (sym w) s.zeros;
        idle = λ h. let (a, b) = s.idle (sym g ∙ h) in (i ∙ a, d ∙ b);
      }
    where
      kept :
          (r'.former_win_vecter ≡ r.former_win_vecter)
          × (r'.roll_back_flag ≡ r.roll_back_flag)
          × (r'.incre_win ≡ r.incre_win)
          × (r'.decre_win ≡ r.decre_win)
      kept = unfold collapse_cwnd in ground arith

  Step-IsStale : {r r' : Recovery f} → Step r r' → IsStale r → IsStale r'
  unfolding update_app_limited checkpoint
  Step-IsStale {r} (updated weights num r' d e) s =
      let (same, flag) = update_win_fields r r' weights num d e in
      record { zeros = subst AllZero (sym same) s.zeros; idle = λ h. cc }
  Step-IsStale {r} (window_opened w r' e) s = cwnd-IsStale r r' w e s
  Step-IsStale {r} rolled_back s = (rollback-IsStale r s).1
  Step-IsStale (limited v) s = record { zeros = s.zeros; idle = s.idle }
  Step-IsStale {r} (was_reset r' e) s = reset-IsStale r r' e s
  Step-IsStale {r} (collapsed r' e) s = collapse_cwnd-IsStale r r' e s
  Step-IsStale checked s = record { zeros = s.zeros; idle = s.idle }

  Reach-IsStale : {r r' : Recovery f} → IsStale r → Reach r r' → IsStale r'
  Reach-IsStale s here = s
  Reach-IsStale s (next h st) = Step-IsStale st (Reach-IsStale s h)

  -- In any run from a new state, `rollback` never brings back a window that was in use: it gives a
  -- window of 0 bytes, below the minimum that `cwnd` keeps, or the initial 9600. (Condition: no
  -- call of `update_win` computes an increment that equals the number of packets it is given.)
  pub rollback_is_stale :
      (c : Config) (r r' : Recovery f)
      → new f c ≡ some r
      → Reach r r'
      → ((rollback f r').0 ≡ 0) ⊎ ((rollback f r').0 ≡ ini_win)
  rollback_is_stale c r r' e h = (rollback-IsStale r' (Reach-IsStale (new-IsStale c r e) h)).0
