-- ===== src/Command/Serve.antt =====
-- cmd/serve.go: the command that runs the server until it is interrupted.
mod Tests
use dorothy.Base.{
  ℕ, ◌≡◌, refl, sym, ap, ◌∙◌, ◌↔◌, Option, none, some, Bool, true, false, not, List, [], ◌∷◌, ◌==◌,
  if◌then◌else◌,
}
use dorothy.Outcome.{Reply, done}
use dorothy.Effects.{Action}
use dorothy.Host.{Host}
use dorothy.Repo.{Repo}
use dorothy.Setup.{System, Kubo}
use dorothy.Setup.Start.{program_at}
use dorothy.Server.Session.{Store}
use dorothy.Server.Tokens.{Auth, Jwt}
use dorothy.Server.Startup.{new_server, new_server_from_config_file}
use dorothy.Command.Programs.{Flags, on_program}

-- fiber's server. `Handles` says how requests change the world while it listens on a port, and `Returns`
-- what `Listen` may return, and when: an error of the port at once, or after `Shutdown`. `shutdown` is
-- `app.Shutdown`.
pub record Listener (W : Type 0) : Type 1 where
  pub Handles : ℕ → W → W → Type 0
  pub Returns : ℕ → Reply (Unit {0}) → W → W → Type 0
  pub shutdown : W → W

-- Where the command stands: in its loop, behind `app.Shutdown` and in front of `<-c`, or at its end.
pub data Phase : Type 0 where
  waiting draining : Phase
  ended : Reply (Unit {0}) → Phase

-- The command, its goroutine, and the channel between them, which has room for one value.
pub record Serving (W : Type 0) : Type 0 where
  pub phase : Phase
  pub listening : Bool
  pub channel : Option (Reply (Unit {0}))
  pub world : W

pub data Event : Type 0 where
  handled interrupted received : Event
  returned : Reply (Unit {0}) → Event

module _ {W : Type 0} (listener : Listener W) (port : ℕ) where
  open listener use {Handles, Returns, shutdown}

  -- One step of the goroutine, or of the command.
  pub data Step (e : Event) (s s' : Serving W) : Type 0 where
    handles :
        (w : W)
        → e ≡ handled
        → s.listening ≡ true
        → Handles port s.world w
        → s' ≡ record s { world = w }
        → Step e s s'
    -- `c <- app.ListenOnPort(port)`
    returns :
        (r : Reply (Unit {0})) (w : W)
        → e ≡ returned r
        → s.listening ≡ true
        → s.channel ≡ none
        → Returns port r s.world w
        → s' ≡ record s { listening = false; channel = some r; world = w }
        → Step e s s'
    -- `case <-sigs`
    interrupts :
        e ≡ interrupted
        → s.phase ≡ waiting
        → s' ≡ record s { phase = draining; world = shutdown s.world }
        → Step e s s'
    -- `return <-c`, which blocks while the channel is empty
    receives :
        (r : Reply (Unit {0}))
        → e ≡ received
        → s.phase ≡ draining
        → s.channel ≡ some r
        → s' ≡ record s { phase = ended r; channel = none }
        → Step e s s'

  abbrev pub begun : W → Serving W
  begun w = record { phase = waiting; listening = true; channel = none; world = w }

  -- The steps from the start on, the last one first.
  pub data Run (w : W) : List Event → Serving W → Type 0 where
    begin : Run w [] (begun w)
    stepped :
        {es : List Event} {s s' : Serving W} (e : Event)
        → Run w es s
        → Step e s s'
        → Run w (e ∷ es) s'

  -- What the events tell: whether there was an interrupt, and what `Listen` has returned.
  abbrev pub interrupted_in : List Event → Bool
  interrupted_in [] = false
  interrupted_in (interrupted ∷ es) = true
  interrupted_in (handled ∷ es) = interrupted_in es
  interrupted_in (received ∷ es) = interrupted_in es
  interrupted_in (returned r ∷ es) = interrupted_in es

  abbrev pub returned_in : List Event → Option (Reply (Unit {0}))
  returned_in [] = none
  returned_in (interrupted ∷ es) = returned_in es
  returned_in (handled ∷ es) = returned_in es
  returned_in (received ∷ es) = returned_in es
  returned_in (returned r ∷ es) = some r

  abbrev is_waiting : Phase → Bool
  is_waiting waiting = true
  is_waiting draining = false
  is_waiting (ended r) = false

  record Stage (es : List Event) (s : Serving W) : Type 0 where
    looping : is_waiting s.phase ≡ not (interrupted_in es)
    quiet : s.listening ≡ true → returned_in es ≡ none
    sent : (r : Reply (Unit {0})) → s.channel ≡ some r → returned_in es ≡ some r
    told : (r : Reply (Unit {0})) → s.phase ≡ ended r → returned_in es ≡ some r

  Step-Stage :
      (e : Event) (es : List Event) (s s' : Serving W)
      → Stage es s
      → Step e s s'
      → Stage (e ∷ es) s'
  Step-Stage e es s s' st (handles w p on moves q) =
      rw (p, q) (record { looping = st.looping; quiet = st.quiet; sent = st.sent; told = st.told })
  Step-Stage e es s s' st (returns r w p on free back q) =
      rw (p, q)
        (record {
          looping = st.looping;
          quiet = λ k. cc;
          sent = λ x k. k;
          told = λ x k. let a = st.told x k in let b = st.quiet on in absurd (cc);
        })
  Step-Stage e es s s' st (interrupts p loops q) =
      rw (p, q) (record { looping = refl; quiet = st.quiet; sent = st.sent; told = λ x k. cc })
  Step-Stage e es s s' st (receives r p stopped full q) =
      let before : not (interrupted_in es) ≡ false = sym st.looping ∙ ap is_waiting stopped in
      rw (p, q)
        (record {
          looping = sym before;
          quiet = st.quiet;
          sent = λ x k. cc;
          told = λ x k. let same : r ≡ x = cc in st.sent r full ∙ ap some same;
        })

  Run-Stage : (w : W) (es : List Event) (s : Serving W) → Run w es s → Stage es s
  Run-Stage w es s begin = record {
    looping = refl;
    quiet = λ k. refl;
    sent = λ r k. cc;
    told = λ r k. cc;
  }
  Run-Stage w es s (stepped {es = fs} {s = u} {s' = u'} e run step) =
      Step-Stage e fs u u' (Run-Stage w fs u run) step

  is_waiting_iff : (p : Phase) → (p ≡ waiting) ↔ (is_waiting p ≡ true)
  is_waiting_iff waiting = (λ _. refl, λ _. refl)
  is_waiting_iff draining = (λ e. cc, λ e. cc)
  is_waiting_iff (ended r) = (λ e. cc, λ e. cc)

  not_iff : (b : Bool) → (not b ≡ true) ↔ (b ≡ false)
  not_iff true = (λ e. cc, λ e. cc)
  not_iff false = (λ _. refl, λ _. refl)

  Run-waits :
      (w : W) (es : List Event) (s : Serving W)
      → Run w es s
      → ((s.phase ≡ waiting) ↔ (interrupted_in es ≡ false))
        × ((r : Reply (Unit {0})) → s.phase ≡ ended r → returned_in es ≡ some r)
  Run-waits w es s run =
      let st = Run-Stage w es s run in
      (
        (
          λ e. (not_iff (interrupted_in es)).0 (sym st.looping ∙ (is_waiting_iff s.phase).0 e),
          λ e. (is_waiting_iff s.phase).1 (st.looping ∙ (not_iff (interrupted_in es)).1 e),
        ),
        st.told,
      )

module _ (h : Host) (system : System h.World) (kubo : Kubo h.World) (store : Store h.World)
    {R : Type 0} (jwt : Jwt R h.World) (listener : Listener h.World) where
  open h use {World}

  -- Without a configuration file `--noinherit` is not looked at.
  unfoldable pub make_server : Flags → Bool → Action (Repo World) Auth
  make_server flags global =
      if flags.config == ""
      then new_server h system kubo store jwt global
      else new_server_from_config_file h system kubo store jwt flags.config flags.noinherit global

  unfoldable pub started_server : Flags → Bool → Action World Auth
  unfolding make_server
  started_server flags global w =
      on_program h system kubo (program_at h system kubo (system.current_dir w) w)
        (make_server flags global) w

  -- What the command has come to by some events: its server was made, and it has run from there.
  pub record ServeCommand (flags : Flags) (global : Bool) (port : ℕ) (w : World) (es : List Event)
      (s : Serving World) : Type 0 where
    pub auth : Auth
    pub start : World
    pub made : started_server flags global w ≡ (done auth, start)
    pub run : Run listener port start es s

  -- Once its server is made, the command stays in its loop exactly as long as it is not interrupted,
  -- whatever `Listen` has returned, an error of the port too; and what it ends with is what `Listen` has
  -- returned.
  pub ServeCommand-waits_iff :
      (flags : Flags) (global : Bool) (port : ℕ) (w : World) (es : List Event) (s : Serving World)
      → ServeCommand flags global port w es s
      → ((s.phase ≡ waiting) ↔ (interrupted_in listener port es ≡ false))
        × ((r : Reply (Unit {0})) → s.phase ≡ ended r → returned_in listener port es ≡ some r)
  ServeCommand-waits_iff flags global port w es s c = Run-waits listener port c.start es s c.run
