-- ===== src/Device/Once.antt =====
-- A device code is worth one token at most, if no two polls overlap.
use markland.Tokens.{create_user_token}
use markland.Device.Confirm.{found_row_set}
use markland.Prelude.{
  String, true, Option, List, [], ◌∷◌, ◌≡◌, ◌≢◌, refl, arith, inl, inr, Option-cases,
}
use markland.Model.{Fresh}
use markland.Effects.{Conn, ok}
use markland.External.{External}
use markland.Device.{get_device, start}
use markland.Device.Poll.{PollResult, poll, poll_row, expire_device, poll_status, mint}
use markland.Device.Authorize.{authorize}
use markland.Device.Used.{consumed, used, start_keeps, poll_keeps, authorize_keeps, used_refuses}

-- What can happen to the device codes.
pub data Step : Type 0 where
  starts : Fresh → (invite_token : Option String) → (base_url : String) → Step
  polls : Fresh → (device_code : String) → Step
  confirms : Fresh → (presented user_id : String) → Step

module _ (x : External) where
  abbrev pub step : Step → Conn → Conn
  step (Step.starts fresh invite_token base_url) c = (start fresh invite_token base_url c).1
  step (Step.polls fresh device_code) c = (poll x fresh device_code c).1
  step (Step.confirms fresh presented user_id) c = (authorize x fresh presented user_id c).1

  abbrev pub run : List Step → Conn → Conn
  run [] c = c
  run (s ∷ steps) c = run steps (step s c)

  run_keeps :
      (code : String) (steps : List Step) (c : Conn)
      → used c.db.device_authorizations code ≡ true
      → used (run steps c).db.device_authorizations code ≡ true
  run_keeps code [] c h = h
  run_keeps code (Step.starts fresh invite_token base_url ∷ steps) c h =
      run_keeps code steps _ (start_keeps x fresh code c h invite_token base_url)
  run_keeps code (Step.polls fresh device_code ∷ steps) c h =
      run_keeps code steps _ (poll_keeps x fresh code c h device_code)
  run_keeps code (Step.confirms fresh presented user_id ∷ steps) c h =
      run_keeps code steps _ (authorize_keeps x fresh code c h presented user_id)

  minting_uses :
      (fresh : Fresh) (code token : String) (c : Conn)
      → (poll x fresh code c).0 ≡ ok (PollResult.authorized token)
      → used (poll x fresh code c).1.db.device_authorizations code ≡ true
  unfolding poll poll_row expire_device poll_status mint create_user_token
  minting_uses fresh code token c h = elim (Option-cases (get_device c.db code)) [
    | inl e ↦ absurd (ground arith)
    | inr (row, e) ↦ ground (
      arith,
      e,
      h,
      found_row_set (consumed fresh) c.db.device_authorizations code row (λ r. refl) e,
    )
  ]

-- Polls that run one after the other exchange a device code for one token at most: once a poll of it has
-- returned a token, no poll of it that starts afterwards returns one again, whatever codes are started,
-- polled and confirmed in between, each of these calls ending before the next one starts.
pub poll-single_token :
    (x : External) (fresh fresh' : Fresh) (code token token' : String) (steps : List Step)
    (c : Conn)
    → (poll x fresh code c).0 ≡ ok (PollResult.authorized token)
    → (poll x fresh' code (run x steps (poll x fresh code c).1)).0
      ≢ ok (PollResult.authorized token')
poll-single_token x fresh fresh' code token token' steps c minted =
    used_refuses x fresh' code (run x steps (poll x fresh code c).1)
      (run_keeps x code steps (poll x fresh code c).1 (minting_uses x fresh code token c minted))
      token'
