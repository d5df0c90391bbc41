-- ===== src/Dashboard/Manifests/Approval.antt =====
-- What the workflow keeps, over every sequence of requests.
use adaptive_advertisement.Common.{
  String, ◌≡◌, refl, sym, ap, ◌∙◌, subst, ◌≢◌, Bool, true, false, Bool-cases, some, List, [], ◌∷◌,
  ◌++◌, Dict, lookup, insert, lookup-insert, is_some, arith, inl, inr, str_eq, eq_iff,
}
use mathlib.Core.Option.{some-injective}
use adaptive_advertisement.Dashboard.Audit.{
  ManifestStatus, draft, approved, rejected, enabled, disabled, archived, AuditEvent,
}
use adaptive_advertisement.Dashboard.Manifests.{
  Manifest, Api, Response, success, http_error, can_transition, is_archived,
}
use adaptive_advertisement.Dashboard.Manifests.Requests.{Request, handle, handle_all}
use adaptive_advertisement.Dashboard.Manifests.Moves.{
  Move, approves, rejects, enables, disables, tags_it, archives, new_row, IsHandled, refused,
  registered, moved, handle-IsHandled,
}

-- The statuses that only an approved manifest has.
abbrev pub is_past_approval : ManifestStatus → Bool
is_past_approval approved = true
is_past_approval enabled = true
is_past_approval disabled = true
is_past_approval _ = false

-- Whoever approved it, and when, is on record.
abbrev pub IsApprovedFirst : Manifest → Type 0
IsApprovedFirst m =
    is_past_approval m.status ≡ true
    → (is_some m.approved_by ≡ true) × (is_some m.approved_at ≡ true)

abbrev pub AllApprovedFirst : Dict Manifest → Type 0
AllApprovedFirst d = (id : String) (m : Manifest) → lookup id d ≡ some m → IsApprovedFirst m

past_of_enables : (s : ManifestStatus) → can_transition s enabled ≡ true → is_past_approval s ≡ true
unfolding can_transition
past_of_enables draft h = cc
past_of_enables approved h = refl
past_of_enables rejected h = cc
past_of_enables enabled h = refl
past_of_enables disabled h = refl
past_of_enables archived h = cc

past_of_disables :
    (s : ManifestStatus) → can_transition s disabled ≡ true → is_past_approval s ≡ true
unfolding can_transition
past_of_disables draft h = cc
past_of_disables approved h = refl
past_of_disables rejected h = cc
past_of_disables enabled h = refl
past_of_disables disabled h = refl
past_of_disables archived h = cc

Move-IsApprovedFirst :
    {ok : Bool} {id : String} {m m' : Manifest} {d d' : Dict String}
    → Move ok id m d m' d'
    → IsApprovedFirst m
    → IsApprovedFirst m'
Move-IsApprovedFirst (approves m d now by can) h past = (refl, refl)
Move-IsApprovedFirst (rejects m d now reason can) h past = cc
Move-IsApprovedFirst (enables m d now can) h past = h (past_of_enables m.status can)
Move-IsApprovedFirst (disables m d now can) h past = h (past_of_disables m.status can)
Move-IsApprovedFirst (tags_it m d now tags live) h past = h past
Move-IsApprovedFirst (archives m d now can) h past = cc

insert-All :
    (P : Manifest → Type 0) (id : String) (m : Manifest) (d : Dict Manifest)
    → ((j : String) (x : Manifest) → lookup j d ≡ some x → P x)
    → P m
    → (j : String) (x : Manifest) → lookup j (insert id m d) ≡ some x
    → P x
insert-All P id m d h new j x e = elim (Bool-cases (str_eq id j)) [
  | inl same ↦ subst P (some-injective _ _ (rw (lookup-insert id j m d, same) at e)) new
  | inr other ↦ h j x (rw (lookup-insert id j m d, other) at e)
]

handled-AllApprovedFirst :
    {ok : Bool} {api : Api} {out : Response Manifest × Api}
    → IsHandled ok api out
    → AllApprovedFirst api.manifests
    → AllApprovedFirst out.1.manifests
handled-AllApprovedFirst (refused code) h = h
handled-AllApprovedFirst {api} (registered now body e new) h =
    insert-All IsApprovedFirst body.manifest_id (new_row now body) api.manifests h (λ past. cc)
handled-AllApprovedFirst {api} (moved id m m' d e found mv) h =
    insert-All IsApprovedFirst id m' api.manifests h (Move-IsApprovedFirst mv (h id m found))

-- Approval cannot be bypassed: if every approved, enabled or disabled manifest has its approver and
-- the time of approval on record, this stays so after every sequence of requests.
pub approval_not_bypassed :
    (rs : List Request) (api : Api)
    → AllApprovedFirst api.manifests
    → AllApprovedFirst (handle_all rs api).manifests
unfolding handle_all
approval_not_bypassed [] api h = h
approval_not_bypassed (r ∷ rs) api h =
    approval_not_bypassed rs (handle r api).1 (handled-AllApprovedFirst (handle-IsHandled r api) h)

archived_stays : (s t : ManifestStatus) → s ≡ archived → can_transition s t ≡ false
unfolding can_transition
archived_stays s t e = rw e (from_archived t)
  where
    from_archived : (t : ManifestStatus) → can_transition archived t ≡ false
    from_archived approved = refl
    from_archived _ = refl

Move-live :
    {ok : Bool} {id : String} {m m' : Manifest} {d d' : Dict String}
    → Move ok id m d m' d'
    → m.status ≢ archived
unfolding is_archived
Move-live (approves m d now by can) e = cc (can, archived_stays m.status approved e)
Move-live (rejects m d now reason can) e = cc (can, archived_stays m.status rejected e)
Move-live (enables m d now can) e = cc (can, archived_stays m.status enabled e)
Move-live (disables m d now can) e = cc (can, archived_stays m.status disabled e)
Move-live (tags_it m d now tags live) e = cc (live, ap is_archived e)
Move-live (archives m d now can) e = cc (can, archived_stays m.status archived e)

handled_keeps :
    {ok : Bool} {api : Api} {out : Response Manifest × Api} (id : String) (m : Manifest)
    → IsHandled ok api out
    → lookup id api.manifests ≡ some m
    → m.status ≡ archived
    → lookup id out.1.manifests ≡ some m
handled_keeps id m (refused code) found over = found
handled_keeps {api} id m (registered now body e new) found over = ground (
  arith,
  lookup-insert body.manifest_id id (new_row now body) api.manifests,
  eq_iff body.manifest_id id,
)
handled_keeps {api} id m (moved j x x' d e there mv) found over = elim (Bool-cases (str_eq j id)) [
  | inl same ↦
      let one =
        some-injective _ _
          (sym there ∙ ap (λ k. lookup k api.manifests) ((eq_iff j id).0 same) ∙ found) in
      absurd (Move-live mv (ap (λ (y : Manifest). y.status) one ∙ over))
  | inr other ↦ rw (lookup-insert j id x' api.manifests, other) found
]

-- Archived is terminal: no sequence of requests changes an archived manifest, or registers its
-- identifier anew.
pub archived_final :
    (rs : List Request) (api : Api) (id : String) (m : Manifest)
    → lookup id api.manifests ≡ some m
    → m.status ≡ archived
    → lookup id (handle_all rs api).manifests ≡ some m
unfolding handle_all
archived_final [] api id m found over = found
archived_final (r ∷ rs) api id m found over =
    archived_final rs (handle r api).1 id m (handled_keeps id m (handle-IsHandled r api) found over)
      over

-- The log after an answer: one more event exactly if the request was accepted.
abbrev pub Audited : Api → Response Manifest → Api → Type 0
Audited api (success m) api' = (e : AuditEvent) × (api'.audit_events ≡ api.audit_events ++ e ∷ [])
Audited api (http_error code) api' = api' ≡ api

handled-Audited :
    {ok : Bool} {api : Api} {out : Response Manifest × Api}
    → IsHandled ok api out
    → Audited api out.0 out.1
handled-Audited (refused code) = refl
handled-Audited (registered now body e new) = (e, refl)
handled-Audited (moved id m m' d e found mv) = (e, refl)

-- Every request that is accepted appends one event to the audit log, and a request that is refused
-- changes nothing.
pub handle-Audited : (r : Request) (api : Api) → Audited api (handle r api).0 (handle r api).1
handle-Audited r api = handled-Audited (handle-IsHandled r api)
