-- ===== src/Core/Reentrant/Overtakes.antt =====
-- A schedule in which the second of two tasks does what it left before the first does.
use orlando.Base.{ap, ◌∙◌, ◌≡◌, refl, List, [], ◌∷◌, some}
use orlando.Core.Reentrant.{
  Loop, Work, Choice, receive, handle_at, complete_at, join_at, begin, run, step, split_at, spawned,
  handled_by, completed, after_handler, leftover, Job, received, handle_job, complete_job, join_job,
}

-- Both messages are received and handled in turn; then the second task writes before the first.
abbrev pub overtaking : List Choice
overtaking =
    receive
    ∷ receive
    ∷ handle_at 0
    ∷ handle_at 1
    ∷ complete_at 1
    ∷ complete_at 0
    ∷ join_at 1
    ∷ join_at 0
    ∷ []

run-step :
    {S M B W : Type 0} (w : Work S M B W) (c : Choice) (cs : List Choice) (l l' : Loop S M B W)
    → step w c l ≡ some l'
    → run w (c ∷ cs) l ≡ run w cs l'
unfolding run
run-step w c cs l l' h = rw (h, run) refl

module _ {S M B W : Type 0} (w : Work S M B W) (m n : M) (s : S) (d : W) where
  -- Both handlers have run, and these are their tasks.
  abbrev both : Job M B → Job M B → Loop S M B W
  both x y = record {
    state = (w.handle n (w.handle m s).0).0;
    inbox = [];
    jobs = x ∷ y ∷ [];
    world = d;
    handled = m ∷ n ∷ [];
  }

  run-both :
      run w overtaking (begin w (m ∷ n ∷ []) s d)
      ≡ run w
          (complete_at 1 ∷ complete_at 0 ∷ join_at 1 ∷ join_at 0 ∷ [])
          (both (after_handler w (w.handle m s)) (after_handler w (w.handle n (w.handle m s).0)))
  unfolding step begin split_at spawned handled_by received handle_job
  run-both =
      run-step w receive _ _ _ refl
      ∙ run-step w receive _ _ _ refl
      ∙ run-step w (handle_at 0) _ _ _ refl
      ∙ run-step w (handle_at 1) _ _ _ refl

  pub run-overtaking :
      (b c : B)
      → after_handler w (w.handle m s) ≡ leftover b
      → after_handler w (w.handle n (w.handle m s).0) ≡ leftover c
      → run w overtaking (begin w (m ∷ n ∷ []) s d)
        ≡ some (record {
          state = (w.handle n (w.handle m s).0).0;
          inbox = [];
          jobs = [];
          world = w.complete b (w.complete c d);
          handled = m ∷ n ∷ [];
        })
  unfolding run step split_at completed complete_job join_job
  run-overtaking b c h k =
      run-both
      ∙ ap
          (λ x.
            run w (complete_at 1 ∷ complete_at 0 ∷ join_at 1 ∷ join_at 0 ∷ [])
              (both x (after_handler w (w.handle n (w.handle m s).0))))
          h
      ∙ ap
          (λ y.
            run w (complete_at 1 ∷ complete_at 0 ∷ join_at 1 ∷ join_at 0 ∷ [])
              (both (leftover b) y))
          k
