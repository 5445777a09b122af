-- ===== src/Contacts/WellFormed/Always.antt =====
-- apps/im-server/src/modules/contacts/services/contact.service.ts: whatever commands are given, the
-- state of contacts stays well formed.
use slowchat.Base.{◌≡◌, sym, subst, ◌∙◌, false, ◌==◌, Option, arith, any, inl, inr}
use slowchat.Base.Database.{Database}
use slowchat.Model.{Uuid, Text, Store, FriendRequest}
use slowchat.Sessions.{Env}
use slowchat.Contacts.Policy.{blocks_between}
use slowchat.Contacts.Blocking.{pair, pending_between}
use slowchat.Contacts.Requests.{Decision, decided, same_request, new_request}
use slowchat.Contacts.WellFormed.{WellFormed, Command, perform, IsFresh}
use slowchat.Contacts.WellFormed.Rows.{any-same, AtMostOne-upsert_off, AtMostOne-upsert_new}
use slowchat.Contacts.WellFormed.Effects.{
  stored_request, accepted_contacts, create-effect, decide-effect, delete-effect, block-effect,
  unblock-effect, remark-effect,
}
use slowchat.Contacts.WellFormed.Kept.{
  WellFormed-requests, WellFormed-befriended, WellFormed-parted, WellFormed-blocked,
  WellFormed-unblocked, WellFormed-remarked,
}

module _ (db : Database) (s : Store) (well : WellFormed s) where
  moved : (t : Store) → t ≡ s → WellFormed t
  moved t e = subst WellFormed (sym e) well

  created :
      (env : Env) (a b : Uuid) (message : Option Text)
      → any (λ (r : FriendRequest). env.uuid 0 == r.id) s.friend_requests ≡ false
      → any (pending_between (pair a b)) s.friend_requests ≡ false
      → WellFormed (stored_request (new_request (env.uuid 0) a b message) s)
  created env a b message fresh free =
      let row = new_request (env.uuid 0) a b message in
      WellFormed-requests s row
        (λ key.
          AtMostOne-upsert_new same_request (pending_between key) row s.friend_requests fresh
            (λ mine.
              any-same (pending_between key) (pending_between (pair a b)) s.friend_requests
                (λ r. ground arith)
              ∙ free)
            (well.2 key))
        well

  decided_kept :
      (decision : Decision) (r : FriendRequest)
      → any (blocks_between r.requester_id r.recipient_id) s.blocks ≡ false
      → WellFormed (accepted_contacts decision r (stored_request (decided db decision r) s))
  decided_kept decision r free = finish decision
    where
      not_pending :
          (d : Decision) (key : Uuid × Uuid) → pending_between key (decided db d r) ≡ false
      not_pending Decision.accepted key = ground arith
      not_pending Decision.rejected key = ground arith

      requests : (d : Decision) → WellFormed (stored_request (decided db d r) s)
      requests d =
          WellFormed-requests s (decided db d r)
            (λ key.
              AtMostOne-upsert_off same_request (pending_between key) (decided db d r)
                s.friend_requests (not_pending d key) (well.2 key))
            well

      finish :
          (d : Decision) → WellFormed (accepted_contacts d r (stored_request (decided db d r) s))
      finish Decision.rejected = requests Decision.rejected
      finish Decision.accepted =
          WellFormed-befriended (stored_request (decided db Decision.accepted r) s) r.requester_id
            r.recipient_id free (requests Decision.accepted)

  pub perform-WellFormed : (c : Command) → IsFresh c s → WellFormed (perform db c s)
  perform-WellFormed (Command.create env a b message) fresh =
      elim (create-effect db s env a b message) [
        | inl e ↦ moved (perform db (Command.create env a b message) s) e
        | inr (e, free) ↦ subst WellFormed (sym e) (created env a b message fresh free)
      ]
  perform-WellFormed (Command.decide user_id request_id decision) fresh =
      elim (decide-effect db s user_id request_id decision) [
        | inl e ↦ moved (perform db (Command.decide user_id request_id decision) s) e
        | inr (r, free, e) ↦ subst WellFormed (sym e) (decided_kept decision r free)
      ]
  perform-WellFormed (Command.remark u v text) fresh =
      subst WellFormed (sym (remark-effect db s u v text)) (WellFormed-remarked s db u v text well)
  perform-WellFormed (Command.remove u v) fresh = elim (delete-effect db s u v) [
    | inl e ↦ moved (perform db (Command.remove u v) s) e
    | inr e ↦ subst WellFormed (sym e) (WellFormed-parted s db u v well)
  ]
  perform-WellFormed (Command.block_user u v) fresh = elim (block-effect db s u v) [
    | inl e ↦ moved (perform db (Command.block_user u v) s) e
    | inr e ↦ subst WellFormed (sym e) (WellFormed-blocked s db u v well)
  ]
  perform-WellFormed (Command.unblock_user u v) fresh =
      subst WellFormed (sym (unblock-effect db s u v)) (WellFormed-unblocked s db u v well)
