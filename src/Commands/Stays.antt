-- ===== src/Commands/Stays.antt =====
-- src/command/command_handler.cpp: what no command changes. A relation between the state before and
-- after, with the steps that commands are made of, holds over every command.
use tiny_sql.Prelude.{
  ℕ, Bool, true, false, Option, none, some, [], ◌∷◌, Bytes, Outcome, done, thrown, after, continue,
  pure, throw, ◌>>=◌, ◌>>◌, if◌then◌else◌,
}
use tiny_sql.Buffer.{Buffer, BufferError, BufferM}
use tiny_sql.Session.{SessionState, next_sequence_id, set_state, set_current_database}
use tiny_sql.Storage.Catalogue.{get_database}
use tiny_sql.Commands.{
  Tables, Storage, Server, CommandError, CommandM, with_buffer, on_buffer, call_back, reply,
  reply_ok, reply_err, on_session, readable, named, with_database_name, or_else, with_database,
  put_database,
}
use tiny_sql.Commands.Select.{write_packet}
use tiny_sql.Commands.Dispatch.{set_sequence_id}

-- The changes that commands are made of.
pub record Frame (R : Server → Server → Type 0) : Type 0 where
  pub unchanged : (w : Server) → R w w
  pub both : (u v w : Server) → R u v → R v w → R u w
  pub buffer : (w : Server) (b : Buffer) → R w (record w { buffer = b })
  pub sent : (w : Server) (s : Bytes) → R w (record w { sent = s })
  pub storage : (w : Server) (e : Storage) → R w (record w { storage = e })
  pub sequence :
      (w : Server) (n : ℕ) → R w (record w { session = record w.session { sequence_id = n } })
  pub database :
      (w : Server) (d : Bytes)
      → R w (record w { session = record w.session { current_database = d } })
  pub closing :
      (w : Server) → R w (record w { session = record w.session { state = SessionState.closing } })

module _ (R : Server → Server → Type 0) (f : Frame R) where
  pub record Stays {A : Type 0} (m : CommandM A) : Type 0 where
    pub stays : (w : Server) → R w (after (m w))

  continue-Stays :
      {A B : Type 0} (u : Server) (o : Outcome CommandError Server A) (k : A → CommandM B)
      → R u (after o)
      → ((a : A) → Stays (k a))
      → R u (after (continue o k))
  continue-Stays u (done a v) k r h = f.both u v (after (k a v)) r ((h a).stays v)
  continue-Stays u (thrown e v) k r h = r

  pub Stays-bind :
      {A B : Type 0} (m : CommandM A) (k : A → CommandM B)
      → Stays m
      → ((a : A) → Stays (k a))
      → Stays (m >>= k)
  Stays-bind m k hm hk = record { stays = λ w. continue-Stays w (m w) k (hm.stays w) hk }

  pub Stays-next :
      {A B : Type 0} (m : CommandM A) (k : CommandM B) → Stays m → Stays k → Stays (m >> k)
  Stays-next m k hm hk = Stays-bind m (λ a. k) hm λ a. hk

  -- A handler that looks at its state first.
  pub Stays-at :
      {A : Type 0} (m : Server → CommandM A) → ((w : Server) → Stays (m w)) → Stays (λ w. m w w)
  Stays-at m h = record { stays = λ w. (h w).stays w }

  pub Stays-pure : {A : Type 0} (a : A) → Stays (pure a)
  Stays-pure a = record { stays = f.unchanged }

  pub Stays-throw : {A : Type 0} (e : CommandError) → Stays (let m : CommandM A = throw e in m)
  Stays-throw e = record { stays = f.unchanged }

  pub Stays-if :
      {A : Type 0} (b : Bool) (m k : CommandM A) → Stays m → Stays k → Stays (if b then m else k)
  Stays-if true m k hm hk = hm
  Stays-if false m k hm hk = hk

  with_buffer-R :
      {A : Type 0} (w : Server) (o : Outcome BufferError Buffer A) → R w (after (with_buffer w o))
  with_buffer-R w (done a b) = f.buffer w b
  with_buffer-R w (thrown e b) = f.buffer w b

  pub Stays-on_buffer : {A : Type 0} (m : BufferM A) → Stays (on_buffer m)
  unfolding on_buffer
  Stays-on_buffer m = record { stays = λ w. with_buffer-R w (m w.buffer) }

  pub Stays-reply : (encode : ℕ → Buffer → Buffer) → Stays (reply encode)
  unfolding reply call_back next_sequence_id
  Stays-reply encode = record { stays = λ w. f.both _ _ _ (f.sequence w _) (f.sent _ _) }

  pub Stays-reply_ok : (m n : ℕ) (info : Bytes) → Stays (reply_ok m n info)
  unfolding reply_ok
  Stays-reply_ok m n info = Stays-reply _

  pub Stays-reply_err : (code : ℕ) (state message : Bytes) → Stays (reply_err code state message)
  unfolding reply_err
  Stays-reply_err code state message = Stays-reply _

  pub Stays-readable : Stays readable
  Stays-readable = record { stays = f.unchanged }

  pub Stays-named :
      (k : Bytes → CommandM Bool) (d : Bytes) → ((e : Bytes) → Stays (k e)) → Stays (named k d)
  Stays-named k [] h = Stays-reply_err 1046 _ _
  Stays-named k (c ∷ s) h = h (c ∷ s)

  pub Stays-or_else :
      {A : Type 0} (missing : CommandM Bool) (k : A → CommandM Bool) (o : Option A)
      → Stays missing
      → ((a : A) → Stays (k a))
      → Stays (or_else missing k o)
  Stays-or_else missing k none hm hk = hm
  Stays-or_else missing k (some a) hm hk = hk a

  -- The database that a statement works on.
  pub Stays-in_database :
      (missing : Bytes → CommandM Bool) (k : Bytes → Tables → CommandM Bool)
      → ((d : Bytes) → Stays (missing d))
      → ((d : Bytes) (db : Tables) → Stays (k d db))
      → Stays (with_database_name λ d. with_database d (missing d) (k d))
  Stays-in_database missing k hm hk = Stays-at _ λ w.
      Stays-named (λ d. with_database d (missing d) (k d)) w.session.current_database
        λ d.
          Stays-at (λ v. or_else (missing d) (k d) (get_database d v.storage))
            λ v. Stays-or_else (missing d) (k d) (get_database d v.storage) (hm d) (hk d)

  pub Stays-put_database : (d : Bytes) (db : Tables) → Stays (put_database d db)
  Stays-put_database d db = record { stays = λ w. f.storage w _ }

  pub Stays-on_closing : Stays (on_session (set_state SessionState.closing))
  unfolding on_session set_state
  Stays-on_closing = record { stays = f.closing }

  pub Stays-on_database : (d : Bytes) → Stays (on_session (set_current_database d))
  unfolding on_session set_current_database
  Stays-on_database d = record { stays = λ w. f.database w d }

  pub Stays-on_sequence : (n : ℕ) → Stays (on_session (set_sequence_id n))
  unfolding on_session set_sequence_id
  Stays-on_sequence n = record { stays = λ w. f.sequence w n }

  pub Stays-write_packet :
      (encode : ℕ → Buffer → Buffer) (b : Buffer) → Stays (write_packet encode b)
  unfolding write_packet next_sequence_id
  Stays-write_packet encode b = record { stays = λ w. f.sequence w _ }

  pub ruleset stays_rules = (
    Stays-if, Stays-next, Stays-bind, Stays-pure, Stays-throw, Stays-on_buffer, Stays-readable,
    Stays-reply_ok, Stays-reply_err, Stays-named, Stays-or_else, Stays-in_database,
    Stays-put_database, Stays-on_closing, Stays-on_database, Stays-on_sequence, Stays-write_packet,
  )
