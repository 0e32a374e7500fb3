-- ===== src/Custody/Stopping.antt =====
-- What each classification of a stop is evidence of (cli/internal/process/custody.go).
use millstrand.Base.{◌≡◌, ◌≢◌, ◌↔◌, refl, inl, inr, false, Bool-cases, List, [], ◌∷◌, arith}
use millstrand.Custody.Terminate.{
  graceful, forced, uncertain, Probe, live, gone, failed, Waited, vanished, outlived, unknown,
  wait_group_gone, Kernel, Stopped, after_second, after_first, terminate_process_tree,
}

-- The group was seen alive until it was seen gone.
pub data Vanishes : Probe → List Probe → Type 0 where
  now : (later : List Probe) → Vanishes gone later
  after : {p : Probe} {ps : List Probe} → Vanishes p ps → Vanishes live (p ∷ ps)

-- The group was seen alive at every look.
pub data Lives : Probe → List Probe → Type 0 where
  once : Lives live []
  more : {p : Probe} {ps : List Probe} → Lives p ps → Lives live (p ∷ ps)

vanished_iff : (p : Probe) (ps : List Probe) → (wait_group_gone p ps ≡ vanished) ↔ Vanishes p ps
unfolding wait_group_gone
vanished_iff gone ps = (λ h. now ps, λ v. refl)
vanished_iff failed ps = (λ h. cc, λ v. elim v [ ])
vanished_iff live [] = (λ h. cc, λ v. elim v [ ])
vanished_iff live (p ∷ ps) =
    let (to, of) = vanished_iff p ps in (λ h. after (to h), λ v. of (rest v))
  where
    rest : Vanishes live (p ∷ ps) → Vanishes p ps
    rest (after v) = v

outlived_iff : (p : Probe) (ps : List Probe) → (wait_group_gone p ps ≡ outlived) ↔ Lives p ps
unfolding wait_group_gone
outlived_iff gone ps = (λ h. cc, λ v. elim v [ ])
outlived_iff failed ps = (λ h. cc, λ v. elim v [ ])
outlived_iff live [] = (λ h. once, λ v. refl)
outlived_iff live (p ∷ ps) =
    let (to, of) = outlived_iff p ps in (λ h. more (to h), λ v. of (rest v))
  where
    rest : Lives live (p ∷ ps) → Lives p ps
    rest (more v) = v

-- A failure is reported with an uncertain stop, and with no other.
abbrev FailsAs : Stopped → Type 0
FailsAs s = (s.failure ≢ []) ↔ (s.stop ≡ uncertain)

after_second-FailsAs : (w : Waited) → FailsAs (after_second w)
after_second-FailsAs vanished = (λ h. absurd (h refl), λ h. cc)
after_second-FailsAs outlived = (λ h. refl, λ h q. cc)
after_second-FailsAs unknown = (λ h. refl, λ h q. cc)

after_first-FailsAs : (k : Kernel) (w : Waited) → FailsAs (after_first k w)
after_first-FailsAs k vanished = (λ h. absurd (h refl), λ h. cc)
after_first-FailsAs k unknown = (λ h. refl, λ h q. cc)
after_first-FailsAs k outlived = elim (Bool-cases k.kill_fails) [
  | inl e ↦ simp e (λ h. refl, λ h q. cc)
  | inr e ↦ simp e (after_second-FailsAs (wait_group_gone k.after_kill k.kill_looks))
]

terminate-FailsAs : (k : Kernel) → FailsAs (terminate_process_tree k)
unfolding terminate_process_tree
terminate-FailsAs k = elim (Bool-cases k.term_fails) [
  | inl e ↦ simp e (λ h. refl, λ h q. cc)
  | inr e ↦ simp e (after_first-FailsAs k (wait_group_gone k.after_term k.term_looks))
]

-- A stop is graceful exactly if the terminate signal was sent and the group was then seen gone in
-- the grace period; it is forced exactly if the group lived on through that period, the kill
-- signal was sent, and the group was then seen gone; and an error comes with an uncertain stop
-- and with no other.
pub terminate_process_tree_lem :
    (k : Kernel)
    → (((terminate_process_tree k).stop ≡ graceful)
        ↔ ((k.term_fails ≡ false) × Vanishes k.after_term k.term_looks))
      × (((terminate_process_tree k).stop ≡ forced) ↔ (
          (k.term_fails ≡ false)
          × Lives k.after_term k.term_looks
          × (k.kill_fails ≡ false)
          × Vanishes k.after_kill k.kill_looks))
      × (((terminate_process_tree k).failure ≢ []) ↔ ((terminate_process_tree k).stop ≡ uncertain))
unfolding terminate_process_tree
terminate_process_tree_lem k =
    let (gone_one, gone_two) = vanished_iff k.after_term k.term_looks in
    let (live_one, live_two) = outlived_iff k.after_term k.term_looks in
    let (kill_one, kill_two) = vanished_iff k.after_kill k.kill_looks in
    (
      (λ h. (ground arith, gone_one (ground arith)), λ (t, v). let w = gone_two v in ground arith),
      (
        λ h. (ground arith, live_one (ground arith), ground arith, kill_one (ground arith)),
        λ (t, l, f, v). let w = live_two l in let u = kill_two v in ground arith,
      ),
      terminate-FailsAs k,
    )
