-- ===== src/Repo/Answers.antt =====
-- Where the payload of a `Fetch` or a `Push` of core/dorothy.go comes from.
use dorothy.Base.{
  ap, ◌∙◌, ◌≡◌, Option, none, some, eqb, eqb_iff, Bool-cases, Option-cases, inl, inr,
}
use dorothy.Outcome.{Outcome, done}
use dorothy.Sorter.{Sorter}
use dorothy.Manifest.{Slot}
use dorothy.Effects.{lift, >>=-eq-done, >>=-lift-eq-done, ◌>>=◌}
use dorothy.Host.{Host}
use dorothy.Sdk.{Payload, Client, Http, Result, login_guard}
use dorothy.Repo.{Dorothy, Repo}
use dorothy.Repo.Exchange.{sdk_client, payload_of, keep_payload, send_with, exchange}

module _ (h : Host) (sort : Sorter Slot) (http : Http h.World) where
  open h use {World}

  -- A result that is accepted: no error, the status 200, and a payload.
  pub record Accepted (result : Result) (payload : Payload) : Type 0 where
    pub unfailed : result.error ≡ none
    pub status : result.code ≡ 200
    pub held : result.payload ≡ some payload

  payload_of-Accepted :
      (x : Result) (p : Payload) → payload_of h sort http x ≡ done p → Accepted x p
  unfolding payload_of
  payload_of-Accepted x p e = elim (Option-cases x.error) [
    | inr (y, q) ↦ let k = rw q at e in absurd (cc)
    | inl q ↦ elim (Bool-cases (eqb x.code 200)) [
      | inr other ↦ let k = rw (q, other) at e in absurd (cc)
      | inl same ↦ elim (Option-cases x.payload) [
        | inl empty ↦ let k = rw (q, same, empty) at e in absurd (cc)
        | inr (y, full) ↦
            let k = rw (q, same, full) at e in
            record { unfailed = q; status = (eqb_iff x.code 200).0 same; held = full ∙ cc }
      ]
    ]
  ]

  -- The payload was in what the remote answered under the login guard, to the request that `req` makes of
  -- the program.
  pub record Exchanged (req : Dorothy → Outcome (Option (Client World) → World → Result × World))
      (r : Repo World) (payload : Payload) : Type 0 where
    pub client : Option (Client World)
    pub opened : Repo World
    pub opening : sdk_client h sort http r ≡ (done client, opened)
    pub send : Option (Client World) → World → Result × World
    pub asked : req opened.dorothy ≡ done send
    pub accepted : Accepted (login_guard http client (send client) opened.world).0 payload

  pub exchange-Exchanged :
      (req : Dorothy → Outcome (Option (Client World) → World → Result × World)) (r r' : Repo World)
      (payload : Payload)
      → exchange h sort http req r ≡ (done payload, r')
      → Exchanged req r payload
  unfolding exchange send_with
  exchange-Exchanged req r r' payload e =
      let (client, v, opening, e1) =
        >>=-eq-done (sdk_client h sort http)
          (λ client s. (lift (req s.dorothy) >>= send_with h sort http client) s) r e in
      let (send, asked, e2) =
        >>=-lift-eq-done (req v.dorothy) (send_with h sort http client) v e1 in
      let result = (login_guard http client (send client) v.world).0 in
      let after : Repo World = record v {
        world = (login_guard http client (send client) v.world).1;
      } in
      let (p, taken, e3) =
        >>=-lift-eq-done (payload_of h sort http result) (keep_payload h sort http result) after
          e2 in
      let same : p ≡ payload = cc in
      record {
        client = client;
        opened = v;
        opening = opening;
        send = send;
        asked = asked;
        accepted = payload_of-Accepted result payload (taken ∙ ap (λ x. done x) same);
      }
