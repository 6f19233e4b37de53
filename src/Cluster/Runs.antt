-- ===== src/Cluster/Runs.antt =====
-- Each server of a cluster by itself: how it was started, and what has come in since.
use mathlib.Core.List.{append-nil}
use jkv.Base.{
  ℕ, ◌≡◌, refl, sym, ap, ◌∙◌, Option, none, some, List, [], ◌∷◌, ◌++◌, returned, find,
  find-erase-some, find-erase-ne, assign-Every_others, ◌==◌, ==_refl, if◌then◌else◌,
}
use jkv.Env.{Env}
use jkv.Server.{Server}
use jkv.Server.Inputs.{Input, raft_call, receive, serve, delivered_by, delivered_in}
use jkv.Server.Runs.{serve-last, delivered_in-last}
use jkv.Server.Replica.{map_at}
use jkv.Echo.ServerMain.{ServerFlags, Launched, server_main}
use jkv.Cluster.{
  Deployment, Cluster, NamesMember, starts, quits, dies, acts, delivers, Reach, none_yet, later,
}
use jkv.Cluster.Log.{log_at, first_map}

module _ (env : Env) (d : Deployment env) where
  open env use {raft, jrpc, leveldb}

  -- The last start on a host.
  abbrev pub launch_of : {c : Cluster env} → Reach env d c → ℕ → Option (Launched env)
  launch_of none_yet h = none
  launch_of (later r (starts f w st l names new ran)) h =
      if f.host_id == h then some l else launch_of r h
  launch_of (later r (quits k s at)) h = launch_of r h
  launch_of (later r (dies k s m n at cut)) h = launch_of r h
  launch_of (later r (acts k e s s' local at ran)) h = launch_of r h
  launch_of (later r (delivers client req done t t' flies to ran)) h = launch_of r h

  -- What has come in since.
  abbrev pub inputs_of : {c : Cluster env} → Reach env d c → ℕ → List Input
  inputs_of none_yet h = []
  inputs_of (later r (starts f w st l names new ran)) h =
      if f.host_id == h then [] else inputs_of r h
  inputs_of (later r (quits k s at)) h = inputs_of r h
  inputs_of (later r (dies k s m n at cut)) h = inputs_of r h
  inputs_of (later r (acts k e s s' local at ran)) h =
      if k == h then inputs_of r h ++ e ∷ [] else inputs_of r h
  inputs_of (later r (delivers client req done t t' flies to ran)) h =
      if d.reaches client == h then inputs_of r h ++ raft_call req done ∷ [] else inputs_of r h

  -- The server on a host is what its start has become by its inputs.
  pub record IsRun {c : Cluster env} (r : Reach env d c) (h : ℕ) (s : Server env) : Type 0 where
    pub flags : ServerFlags
    pub worker : jrpc.Worker
    pub storage : raft.Storage
    pub files : leveldb.Files
    pub launch : Launched env
    pub here : flags.host_id ≡ h
    pub names : NamesMember env d flags
    pub launches : server_main env flags worker storage files ≡ returned launch
    pub launched : launch_of r h ≡ some launch
    pub served : serve env (inputs_of r h) launch.server ≡ returned s
    pub log : (j : ℕ) → delivered_in env j (inputs_of r h) launch.server ≡ log_at env d j r h
    pub first : (j : ℕ) → first_map env d j r h ≡ map_at env j launch.server

  served_none : (s : Server env) → serve env [] s ≡ returned s
  unfolding serve
  served_none s = refl

  delivered_none : (j : ℕ) (s : Server env) → delivered_in env j [] s ≡ []
  unfolding delivered_in
  delivered_none j s = refl

  -- Nothing has come in on this host.
  IsRun-kept :
      {c c' : Cluster env} (r : Reach env d c) (r' : Reach env d c') (h : ℕ) (s : Server env)
      → launch_of r' h ≡ launch_of r h
      → inputs_of r' h ≡ inputs_of r h
      → ((j : ℕ) → log_at env d j r' h ≡ log_at env d j r h)
      → ((j : ℕ) → first_map env d j r' h ≡ first_map env d j r h)
      → IsRun r h s
      → IsRun r' h s
  IsRun-kept r r' h s launch inputs log first o = record {
    flags = o.flags;
    worker = o.worker;
    storage = o.storage;
    files = o.files;
    launch = o.launch;
    here = o.here;
    names = o.names;
    launches = o.launches;
    launched = launch ∙ o.launched;
    served = rw inputs o.served;
    log = λ j. rw inputs (o.log j) ∙ sym (log j);
    first = λ j. first j ∙ o.first j;
  }

  -- One more input has come in.
  IsRun-last :
      {c c' : Cluster env} (r : Reach env d c) (r' : Reach env d c') (h : ℕ) (e : Input)
      (s s' : Server env)
      → receive env e s ≡ returned s'
      → launch_of r' h ≡ launch_of r h
      → inputs_of r' h ≡ inputs_of r h ++ e ∷ []
      → ((j : ℕ) → log_at env d j r' h ≡ log_at env d j r h ++ delivered_by env j e s)
      → ((j : ℕ) → first_map env d j r' h ≡ first_map env d j r h)
      → IsRun r h s
      → IsRun r' h s'
  IsRun-last r r' h e s s' ran launch inputs log first o = record {
    flags = o.flags;
    worker = o.worker;
    storage = o.storage;
    files = o.files;
    launch = o.launch;
    here = o.here;
    names = o.names;
    launches = o.launches;
    launched = launch ∙ o.launched;
    served = rw inputs (serve-last env (inputs_of r h) e o.launch.server s s' o.served ran);
    log = λ j.
        ap (λ es. delivered_in env j es o.launch.server) inputs
        ∙ delivered_in-last env j (inputs_of r h) e o.launch.server s s' o.served ran
        ∙ ap (λ l. l ++ delivered_by env j e s) (o.log j)
        ∙ sym (log j);
    first = λ j. first j ∙ o.first j;
  }

  -- A server that has just been started.
  IsRun-starts :
      {c : Cluster env} (r : Reach env d c) (f : ServerFlags) (w : jrpc.Worker) (st : raft.Storage)
      (l : Launched env) (names : NamesMember env d f) (new : find f.host_id c.servers ≡ none)
      (ran : server_main env f w st (c.disks f.host_id) ≡ returned l)
      → IsRun (later r (starts f w st l names new ran)) f.host_id l.server
  IsRun-starts {c} r f w st l names new ran = record {
    flags = f;
    worker = w;
    storage = st;
    files = c.disks f.host_id;
    launch = l;
    here = refl;
    names = names;
    launches = ran;
    launched = rw (==_refl f.host_id) refl;
    served = rw (==_refl f.host_id) (served_none l.server);
    log = λ j. rw (==_refl f.host_id) (delivered_none j l.server);
    first = λ j. rw (==_refl f.host_id) refl;
  }

  -- Every server that runs in a cluster has been started with flags that name the group and its host, and
  -- what has come in since has made it what it is; what has been delivered to its peer by it is the
  -- host's log.
  pub Reach-IsRun :
      (c : Cluster env) (r : Reach env d c) (h : ℕ) (s : Server env)
      → find h c.servers ≡ some s
      → IsRun r h s
  Reach-IsRun _ none_yet = λ h s at. absurd (cc)
  Reach-IsRun _ (later {c} r (starts f w st l names new ran)) =
      let r' = later r (starts f w st l names new ran) in
      assign-Every_others (IsRun r') f.host_id l.server c.servers
        (IsRun-starts r f w st l names new ran)
        (λ h s other at.
          IsRun-kept r r' h s (rw other refl) (rw other refl) (λ j. rw other refl)
            (λ j. rw other refl) (Reach-IsRun c r h s at))
  Reach-IsRun _ (later {c} r (quits k s at)) = λ h t there.
      IsRun-kept r (later r (quits k s at)) h t refl refl (λ j. refl) (λ j. refl)
        (Reach-IsRun c r h t (find-erase-some k h t c.servers there))
  Reach-IsRun _ (later {c} r (dies k s m n at cut)) = λ h t there.
      let other = find-erase-ne k h t c.servers there in
      IsRun-kept r (later r (dies k s m n at cut)) h t refl refl (λ j. rw other refl) (λ j. refl)
        (Reach-IsRun c r h t (find-erase-some k h t c.servers there))
  Reach-IsRun _ (later {c} r (acts k e s s' local at ran)) =
      let r' = later r (acts k e s s' local at ran) in
      assign-Every_others (IsRun r') k s' c.servers
        (IsRun-last r r' k e s s' ran refl (rw (==_refl k) refl) (λ j. rw (==_refl k) refl)
          (λ j. refl) (Reach-IsRun c r k s at))
        (λ h t other there.
          IsRun-kept r r' h t refl (rw other refl) (λ j. rw other refl) (λ j. refl)
            (Reach-IsRun c r h t there))
  Reach-IsRun _ (later {c} r (delivers client req done t t' flies to ran)) =
      let r' = later r (delivers client req done t t' flies to ran) in
      let k = d.reaches client in
      assign-Every_others (IsRun r') k t' c.servers
        (IsRun-last r r' k (raft_call req done) t t' ran refl (rw (==_refl k) refl)
          (λ j. sym (append-nil (log_at env d j r k))) (λ j. refl) (Reach-IsRun c r k t to))
        (λ h u other there.
          IsRun-kept r r' h u refl (rw other refl) (λ j. refl) (λ j. refl)
            (Reach-IsRun c r h u there))
