-- ===== src/Node/Parameters/Update/Batch.antt =====
-- A call with several parameters.
use ros2sonic.Prelude.{
  ◌≡◌, refl, sym, ap, ◌∙◌, Bool, true, false, ◌&&◌, Option, none, some, List, [], ◌∷◌,
  if◌then◌else◌,
}
use ros2sonic.Outcome.{Outcome, ok, ◌>>=◌}
use ros2sonic.Memory.{Bytes}
use ros2sonic.Inet.{Inet}
use ros2sonic.Floats.{Floats}
use ros2sonic.Node.Ros.{Ros}
use ros2sonic.Node.Parameters.{Parameters}
use ros2sonic.Node.Parameters.Update.{
  SetResult, success, failed, Parameter, State, update_one, update_all, on_parameter_update,
}
use ros2sonic.Node.Parameters.Update.Spec.{
  Write, apply, apply_all, meaning, add_write, accepted, is_accepted, all_accepted,
}
use ros2sonic.Node.Parameters.Update.Correct.{Answers, update_one-Answers, meaning-apply}

module _ {fl : Floats} (ros : Ros fl) (inet : Inet) where
  accepted-apply :
      (ps : List (Parameter ros inet)) (w : Write fl) (params : Parameters fl)
      → (accepted ros inet ps (apply w params) ≡ accepted ros inet ps params)
        × (all_accepted ros inet ps (apply w params) ≡ all_accepted ros inet ps params)
  accepted-apply [] w params = (refl, refl)
  accepted-apply (p ∷ ps) w params =
      let (same, same_all) = accepted-apply ps w params in
      (
        rw (meaning-apply ros inet p w params)
            (ap (add_write ros inet (meaning ros inet p params)) same),
        rw (meaning-apply ros inet p w params)
            (ap (λ (b : Bool). is_accepted ros inet (meaning ros inet p params) && b) same_all),
      )

  -- The result of a call, from the result that it starts with.
  abbrev verdict : Bool → SetResult → SetResult → SetResult
  verdict all_ok before after = if all_ok then before else failed after.reason

  -- What a call does.
  abbrev Does : List (Write fl) → Bool → Outcome (State ros inet) → State ros inet → Type 0
  Does ws all_ok m (params, result) =
      (result' : SetResult) × (m ≡ ok (apply_all ws params, result'))
      × (result' ≡ verdict all_ok result result')

  stays_failed :
      (all_ok : Bool) (why : Bytes) (after : SetResult)
      → after ≡ verdict all_ok (failed why) after
      → after ≡ failed after.reason
  stays_failed true why after h = h ∙ ap (λ (r : SetResult). failed r.reason) (sym h)
  stays_failed false why after h = h

  -- One parameter, and then the others.
  one_more :
      (found : Option (Write fl)) (m : Outcome (State ros inet)) (ps : List (Parameter ros inet))
      (params : Parameters fl) (result : SetResult)
      → Answers ros inet found m (params, result)
      → ((params' : Parameters fl) (result' : SetResult)
          → Does
              (accepted ros inet ps params')
              (all_accepted ros inet ps params')
              (update_all ros inet ps (params', result'))
              (params', result'))
      → Does
          (add_write ros inet found (accepted ros inet ps params))
          (is_accepted ros inet found && all_accepted ros inet ps params)
          (m >>= update_all ros inet ps)
          (params, result)
  one_more (some w) m ps params result h rest =
      let (result', e, judged) = rest (apply w params) result in
      let (same, same_all) = accepted-apply ps w params in
      (
        result',
        rw h (e ∙ ap (λ (ws : List (Write fl)). ok (apply_all ws (apply w params), result')) same),
        judged ∙ ap (λ (b : Bool). verdict b result result') same_all,
      )
  one_more none m ps params result (why, h) rest =
      let (result', e, judged) = rest params (failed why) in
      (result', rw h e, stays_failed (all_accepted ros inet ps params) why result' judged)

  update_all-Does :
      (ps : List (Parameter ros inet)) (params : Parameters fl) (result : SetResult)
      → Does
          (accepted ros inet ps params)
          (all_accepted ros inet ps params)
          (update_all ros inet ps (params, result))
          (params, result)
  unfolding update_all
  update_all-Does [] params result = (result, refl, refl)
  update_all-Does (p ∷ ps) params result =
      one_more (meaning ros inet p params) (update_one ros inet p (params, result)) ps params result
        (update_one-Answers ros inet p params result) (update_all-Does ps)

  -- The callback always returns. The parameters afterwards are those before it with the writes of
  -- the accepted ones of its arguments, in their order; which are accepted depends on no write of
  -- the call. The result is "Success" if all are accepted, and otherwise it is a failure, though
  -- the accepted ones stay written.
  pub on_parameter_update-eq :
      (ps : List (Parameter ros inet)) (params : Parameters fl)
      → (result : SetResult) × (on_parameter_update ros inet ps params
          ≡ ok (apply_all (accepted ros inet ps params) params, result))
        × (result ≡ (if all_accepted ros inet ps params then success else failed result.reason))
  unfolding on_parameter_update
  on_parameter_update-eq ps params = update_all-Does ps params success
