-- ===== src/Ds/Conn/Tcp/Fitting.antt =====
-- What `tcp_conn` of src/ds/conn.rs makes of a tag, as src/proto/tcp/outbound.rs can encode it or not.
use ds_rs.Prelude.{
  ℕ, ◌≡◌, refl, Bool, true, false, ◌&&◌, List, [], ◌∷◌, ◌++◌, append_assoc, if◌then◌else◌,
}
use ds_rs.Proto.Tcp.{TcpTag}
use ds_rs.Proto.Tcp.Frames.{fits}
use ds_rs.Ds.Conn.Tcp.{tag, on_event}
use ds_rs.Ds.Conn.Tcp.Tasks.{running, ended, Tasks, put, after_round}
use ds_rs.Ds.Conn.Tcp.Phases.{put_self}

-- What the encoder gets of the tags in a channel, when the task goes on with them: all before the
-- first that does not fit in its frame.
abbrev pub fitting : List TcpTag → List TcpTag
fitting [] = []
fitting (t ∷ tags) = if fits t then t ∷ fitting tags else []

-- What is then lost behind that one.
abbrev pub lost : List TcpTag → List TcpTag
lost [] = []
lost (t ∷ tags) = if fits t then lost tags else tags

abbrev pub all_fit : List TcpTag → Bool
all_fit [] = true
all_fit (t ∷ tags) = fits t && all_fit tags

module _ (t : TcpTag) (tags : List TcpTag) (fit : fits t ≡ true) where
  pub lost-fits : lost (t ∷ tags) ≡ lost tags
  lost-fits = rw fit refl

  -- The tag is at the end of what was handed over, and the others wait.
  pub fitting-behind :
      (handed : List TcpTag) {before behind : List TcpTag}
      → before ≡ handed ++ t ∷ []
      → behind ≡ tags
      → before ++ fitting behind ≡ handed ++ fitting (t ∷ tags)
  fitting-behind handed e e' = rw (e, e', fit) (append_assoc handed (t ∷ []) (fitting tags))

module _ (t : TcpTag) (tags : List TcpTag) (long : fits t ≡ false) where
  pub lost-long : lost (t ∷ tags) ≡ tags
  lost-long = rw long refl

  pub fitting-long : fitting (t ∷ tags) ≡ []
  fitting-long = rw long refl

abbrev pub after_tag : ℕ → TcpTag → List TcpTag → Tasks → Tasks
after_tag k t tags sys =
    after_round k (on_event (tag t) sys.shared) (record sys { waiting = put k tags sys.waiting })

pub tag-fits :
    (k : ℕ) (t : TcpTag) (tags : List TcpTag) (sys : Tasks)
    → fits t ≡ true
    → sys.phase k ≡ running
    → ((after_tag k t tags sys).phase k ≡ running)
      × ((after_tag k t tags sys).waiting k ≡ tags)
      × ((after_tag k t tags sys).handed k ≡ sys.handed k ++ t ∷ [])
unfolding on_event
tag-fits k t tags sys fit runs = (
  rw fit runs,
  put_self k tags sys.waiting,
  rw fit (put_self k (sys.handed k ++ t ∷ []) sys.handed),
)

pub tag-panics :
    (k : ℕ) (t : TcpTag) (tags : List TcpTag) (sys : Tasks)
    → fits t ≡ false
    → ((after_tag k t tags sys).phase k ≡ ended)
      × ((after_tag k t tags sys).waiting k ≡ tags)
      × ((after_tag k t tags sys).handed k ≡ sys.handed k ++ [])
unfolding on_event
tag-panics k t tags sys long = (
  rw long (put_self k ended sys.phase),
  put_self k tags sys.waiting,
  rw long (put_self k (sys.handed k ++ []) sys.handed),
)
