-- ===== src/Handler/Chunks/Events.antt =====
-- Which events an answer goes with.
use go_lobby.Prelude.{nat_eq, ℕ, List, [], ◌++◌, map, Bool, true, false, Option, none, some}
use go_lobby.Prelude.{if◌then◌else◌, Result, ok, err, ◌≡◌, refl, sym, ap, ◌∙◌, subst, ◌⊎◌, inl, inr}
use go_lobby.Prelude.{keys, lookup}
use mathlib.Core.List.{append-nil}
use go_lobby.Prelude.Text.{Str, str_eq}
use go_lobby.Prelude.Effect.{M, Done}
use go_lobby.Mine.{External}
use go_lobby.Responses.{OpenMineCellResponse}
use go_lobby.MapHub.{MapHub, entries, broadcast_to_chunk}
use go_lobby.MapHub.Receivers.{AreReceivers, broadcast_to-AreReceivers}
use go_lobby.ChunkService.{ChunkService}
use go_lobby.ChunkService.Requests.{Fate, open_cell}
use go_lobby.Handler.{
  CtxValue, Message, not_logged_in, bad_parameters, with_body, Response, answered, refused,
  is_raised, done,
}
use go_lobby.Handler.Chunks.{Server, ChunkEvent, OpenMineCellRequest, deliver}
use go_lobby.Handler.Chunks.{broadcast_chunk_event, opened_event, broadcast_open_cell}
use go_lobby.Handler.Chunks.{after_broadcast, finish, in_world, with_current_user}
use go_lobby.Handler.Chunks.{
  open_cell_handler, chunk_error_status, chunk_error_message, write_chunk_error, current_user_id,
}

-- The clients that a hub has for a chunk.
abbrev pub subscribers : Str → Option MapHub → List ℕ
subscribers chunk none = []
subscribers chunk (some h) = keys (entries (lookup chunk h.chunks))

module _ {W : Type 0} (accepts : ℕ → Bool) where
  abbrev pub Silent : Server W → Server W → Type 0
  Silent before after = (after.delivered ≡ before.delivered) × (after.map_hub ≡ before.map_hub)

  -- The event reached those subscribers of its chunk that accept it, and nobody else.
  abbrev pub Published : ChunkEvent → Server W → Server W → Type 0
  Published event before after =
      (receivers : List ℕ) × (after.delivered
        ≡ before.delivered ++ map (λ client. (client, event)) receivers)
      × AreReceivers accepts (subscribers event.chunk_id before.map_hub) receivers

  delivered_lem :
      (event : ChunkEvent) (r : Result (List ℕ) × MapHub) (before : Server W) {after : Server W}
      → deliver accepts event r before ≡ (ok tt, after)
      → (receivers : List ℕ) × (r.0 ≡ ok receivers)
        × (after.delivered ≡ before.delivered ++ map (λ client. (client, event)) receivers)
  unfolding deliver
  delivered_lem event (ok receivers, h) before e = (receivers, refl, cc)
  delivered_lem event (err x, h) before e = cc

  published :
      (event : ChunkEvent) (hub : Option MapHub) (before : Server W) {after : Server W}
      → broadcast_chunk_event accepts event hub before ≡ (ok tt, after)
      → (receivers : List ℕ) × (after.delivered
          ≡ before.delivered ++ map (λ client. (client, event)) receivers)
        × AreReceivers accepts (subscribers event.chunk_id hub) receivers
  unfolding broadcast_chunk_event broadcast_to_chunk
  published event none before {after} e =
      let same : before ≡ after = cc in
      (
        [],
        ap (λ (s : Server W). s.delivered) (sym same) ∙ sym (append-nil before.delivered),
        λ c. (λ m. absurd m, λ m. m.0),
      )
  published event (some h) before e =
      let r = delivered_lem event (broadcast_to_chunk accepts event.chunk_id h) before e in
      (
        r.0,
        r.2,
        broadcast_to-AreReceivers accepts (keys (entries (lookup event.chunk_id h.chunks))) h r.0
            r.1,
      )

  -- The two ways in which a handler that called the service answers.
  finish-cases :
      {A : Type 0} (broadcast : A → M (Server W) Done) (r : Result A × Server W) {resp : Response A}
      {after : Server W}
      → finish accepts broadcast r ≡ (ok resp, after)
      → ((result : A) × (r.0 ≡ ok result)
          × (resp.data_of ≡ some result)
          × (broadcast result r.1 ≡ (ok tt, after)))
        ⊎ ((resp.data_of ≡ none) × (after ≡ r.1))
  unfolding finish write_chunk_error after_broadcast
  finish-cases {A} broadcast (ok result, mid) {resp} {after} e =
      inl (go (broadcast result mid) refl e)
    where
      go :
          (b : Result Done × Server W)
          → broadcast result mid ≡ b
          → after_broadcast accepts result b ≡ (ok resp, after)
          → (result' : A) × (ok result ≡ ok result')
            × (resp.data_of ≡ some result')
            × (broadcast result' mid ≡ (ok tt, after))
      go (ok tt, later) made e =
          let same : answered done result ≡ resp = cc in
          let state : later ≡ after = cc in
          (
            result,
            refl,
            ap (λ (x : Response A). x.data_of) (sym same),
            subst (λ t. broadcast result mid ≡ (ok tt, t)) state made,
          )
      go (err x, later) made e = cc
  finish-cases {A} broadcast (err x, mid) {resp} {after} e = inr (go (is_raised x) e)
    where
      go :
          (raised : Bool)
          → (let out : Result (Response A) × Server W =
                if raised then (err x, mid) else (ok (write_chunk_error x), mid) in
              out ≡ (ok resp, after))
          → (resp.data_of ≡ none) × (after ≡ mid)
      go true e = cc
      go false e =
          let same : refused (chunk_error_status x) (chunk_error_message x) ≡ resp = cc in
          (ap (λ (r : Response A). r.data_of) (sym same), cc)

  -- What a response to an opened cell says of the events.
  abbrev pub Told : Option OpenMineCellResponse → Server W → Server W → Type 0
  Told none before after = Silent before after
  Told (some result) before after =
      ((result.canceled ≡ true) × Silent before after)
      ⊎ ((result.canceled ≡ false) × Published (opened_event result) before after)

  opened-Told :
      (result : OpenMineCellResponse) (before mid : Server W) {after : Server W}
      → mid.delivered ≡ before.delivered
      → mid.map_hub ≡ before.map_hub
      → broadcast_open_cell accepts result mid ≡ (ok tt, after)
      → Told (some result) before after
  unfolding broadcast_open_cell
  opened-Told result before mid {after} d h e = go (result.canceled) refl e
    where
      go :
          (b : Bool)
          → result.canceled ≡ b
          → (let out : Result Done × Server W =
                if b
                then (ok tt, mid)
                else broadcast_chunk_event accepts (opened_event result) mid.map_hub mid in
              out ≡ (ok tt, after))
          → Told (some result) before after
      go true c e = let same : mid ≡ after = cc in inl (c, subst (λ t. Silent before t) same (d, h))
      go false c e =
          let r = published (opened_event result) mid.map_hub mid e in
          inr (
            c,
            (
              r.0,
              r.1 ∙ ap (λ l. l ++ map (λ client. (client, opened_event result)) r.0) d,
              subst (λ o. AreReceivers accepts (subscribers result.chunk_id o) r.0) h r.2,
            ),
          )

  silent :
      {A : Type 0} (status : ℕ) (message : Message) (before : Server W) {resp : Response A}
      {after : Server W}
      → (let out : Result (Response A) × Server W = (ok (refused status message), before) in
          out ≡ (ok resp, after))
      → (resp.data_of ≡ none) × Silent before after
  silent {A} status message before {resp} {after} e =
      let same : refused status message ≡ resp = cc in
      let kept : before ≡ after = cc in
      (
        ap (λ (r : Response A). r.data_of) (sym same),
        subst (λ t. Silent before t) kept (refl, refl),
      )

  module _ (ext : External) (s : ChunkService W) (fate : Fate) (user : Option CtxValue)
      (raw : Str) where
    -- When `OpenCell` of the handler answers: with an opened cell that was not protected, the
    -- subscribers of the chunk of the result whose channels take the message, and nobody else, get
    -- the event; with a protected cell or without a result nobody gets one and the hub is as it was.
    pub open_cell_handler-Told :
        (body : Option OpenMineCellRequest) (before : Server W)
        {resp : Response OpenMineCellResponse} {after : Server W}
        → open_cell_handler accepts ext s fate user raw body before ≡ (ok resp, after)
        → Told resp.data_of before after
    unfolding open_cell_handler with_current_user in_world
    open_cell_handler-Told body before {resp} {after} e = go (current_user_id user) body e
      where
        answer : ℕ → OpenMineCellRequest → Result OpenMineCellResponse × Server W
        answer id req = in_world (open_cell s ext fate id raw req.x req.y) before

        told :
            (id : ℕ) (req : OpenMineCellRequest)
            → finish accepts (broadcast_open_cell accepts) (answer id req) ≡ (ok resp, after)
            → Told resp.data_of before after
        told id req f = elim (finish-cases (broadcast_open_cell accepts) (answer id req) f) [
          | inl (result, made, shown, sent) ↦
              subst (λ o. Told o before after) (sym shown)
                (opened-Told result before (answer id req).1 refl refl sent)
          | inr (shown, kept) ↦
              subst (λ o. Told o before after) (sym shown)
                (subst (λ t. Silent before t) (sym kept) (refl, refl))
        ]

        go :
            (id : Option ℕ) (b : Option OpenMineCellRequest)
            → with_current_user id
                (λ user_id. with_body b λ req server.
                  finish accepts
                    (broadcast_open_cell accepts)
                    (in_world (open_cell s ext fate user_id raw req.x req.y) server))
                before
              ≡ (ok resp, after)
            → Told resp.data_of before after
        go none b f =
            let r = silent 401 not_logged_in before f in
            subst (λ o. Told o before after) (sym r.0) r.1
        go (some id) none f =
            let r = silent 400 bad_parameters before f in
            subst (λ o. Told o before after) (sym r.0) r.1
        go (some id) (some req) f = told id req f
