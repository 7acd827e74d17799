-- ===== src/Federation/Revoke/Stops.antt =====
-- A federated call that comes in after a delegation was revoked.
use pdatahub.Delegations.{DelegationGrantedRow, GrantedTable, get_granted, revoke_granted}
use pdatahub.Delegations.Tables.{get_granted-revoke}
use pdatahub.Federation.Call.{Services, FederationRequest}
use pdatahub.Federation.Call.Checks.{Authorized}
use pdatahub.Federation.Call.Authorized.{IsAuthorized}
use pdatahub.Federation.Call.Outcomes.{handle-IsAuthorized}
use pdatahub.Federation.Call.Run.{HubState, Surroundings, hub_at, handle_federation_call}
use pdatahub.Prelude.{
  some, true, inl, inr, String, ◌≡◌, ℕ, Option-cases, ◌≢◌, arith, subst, eq_refl,
}
use pdatahub.Federation.Revoke.{handle_revoke_delegation}

get_granted-revoked :
    (id : String) (table : GrantedTable) (d : DelegationGrantedRow)
    → get_granted id (revoke_granted id table).0 ≡ some d
    → d.revoked ≡ 1
get_granted-revoked id table d h = elim (Option-cases (get_granted id table)) [
  | inl e ↦ absurd (ground (arith, h, e, eq_refl id, get_granted-revoke id id table))
  | inr (r, e) ↦ ground (arith, h, e, eq_refl id, get_granted-revoke id id table)
]

-- A federated call that comes in when a delegation has been revoked, and that reaches a plugin, is authorized under
-- another delegation, whoever signs it and whatever the phone answers. A call that was waiting for its approval when the
-- delegation was revoked is not one of these.
pub handle_revoke-IsOther :
    (services : Services) (around : Surroundings) (id : String) (table : GrantedTable)
    (started_at now : ℕ) (req : FederationRequest) (state : HubState)
    → (handle_federation_call services around
        (handle_revoke_delegation id (some table)).0
        started_at
        now
        req
        state).invoked
      ≡ true
    → (a : Authorized) × IsAuthorized services
        (hub_at started_at now (revoke_granted id table).0 state)
        req
        a
      × (a.call.delegation_id ≢ id)
unfolding handle_revoke_delegation
handle_revoke-IsOther services around id table started_at now req state h =
    let left = (revoke_granted id table).0 in
    let (a, authorized, granted) =
      handle-IsAuthorized services around left started_at now req state h in
    (
      a,
      authorized,
      λ same. authorized.delegated.live (
          get_granted-revoked id table a.delegation
            (subst (λ x. get_granted x left ≡ some a.delegation) same authorized.found)),
    )
