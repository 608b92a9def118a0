-- ===== src/Dhcp/Rounds.antt =====
-- The rounds of `Run` keep the client wired.
use monogon.Prelude.{◌≡◌, ◌≢◌, Bool, not, ◌||◌, none, some, List, [], ◌∷◌}
use monogon.Dhcp.Client.{discovering, Client, Shares}
use monogon.Dhcp.Run.{
  Outcome, returned, waiting, panicked, Input, is_some, state_deadline, expires_soon, run_state,
  run,
}

abbrev late : Input → Client → Bool
late i c = not (is_some i.wait) || expires_soon (state_deadline c.state c) i.now

abbrev Next : (Client → Type 0) → Client × Outcome → Type 0
Next P (c, returned none) = P c
Next P (c, returned (some e)) = Unit
Next P (c, waiting) = Unit
Next P (c, panicked) = Unit

-- No round that is in DISCOVERING finds its backoff giving up.
abbrev pub IsSteady : Shares → List Input → Client → Type 0
IsSteady shares [] c = Unit {0}
IsSteady shares (i ∷ is) c =
    (c.state ≡ discovering → i.wait ≢ none)
    × Next (λ c'. IsSteady shares is c') (run_state shares i c)

next_round : List Input → Shares → Client × Outcome → Client × Outcome
next_round is shares (c, returned none) = run shares is c
next_round is shares r = r
