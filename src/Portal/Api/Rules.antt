-- ===== src/Portal/Api/Rules.antt =====
-- Rules for the routes: a guarded part, the tables after a call, and a turn that is read.
use Prim.Native.String.{String}
use opspilot_agent_platform.Prelude.{◌≡◌, refl, sym, ap, arith, Bool, true, false}
use mathlib.Core.Path.{subst}
use opspilot_agent_platform.Prelude.Exec.{Result, ok, err, Exec, raise_if, ◌>>=◌, bind_rule}
use opspilot_agent_platform.Portal.{PortalError, StoreMethod, Tables, PublicTurn}
use opspilot_agent_platform.Portal.Turns.{turn}
use opspilot_agent_platform.Portal.Api.{
  RunError, ApiError, store_error, run_error, map_error, Site, Route, on_tables, on_world, catch,
}
use opspilot_agent_platform.Portal.Api.Claims.{turn-keeps}

-- What holds after a guarded part holds after it and after its handler.
pub catch_rule :
    {World A : Type 0} (m : Route World A) (handler : ApiError → Route World A) (s : Site World)
    (Q : Result ApiError A × Site World → Type 0)
    → ((a : A) (s' : Site World) → m s ≡ (ok a, s') → Q (ok a, s'))
    → ((e : ApiError) (s' : Site World) → m s ≡ (err e, s') → Q (handler e s'))
    → Q (catch m handler s)
unfolding catch
catch_rule {World} {A} m handler s Q h k = go (m s) refl
  where
    continue : Result ApiError A × Site World → Result ApiError A × Site World
    continue (r, s') = elim r [ ok a ↦ (ok a, s') | err e ↦ handler e s' ]

    go : (o : Result ApiError A × Site World) → m s ≡ o → Q (continue o)
    go (ok a, s') q = h a s' q
    go (err e, s') q = k e s' q

pub site_at :
    {X World : Type 0} (P : Site World → Type 0) {o : X × Site World} {r : X} {s : Site World}
    → o ≡ (r, s)
    → P o.1
    → P s
site_at P q h = subst (λ o. P o.1) q h

pub turn-shown :
    {World : Type 0} (user_id k i : String) (p : PublicTurn) (s s' : Site World)
    → on_tables (turn user_id k i) s ≡ (ok p, s')
    → (turn user_id k i s'.tables).0 ≡ ok p
unfolding on_tables
turn-shown user_id k i p s s' q =
    let same : s'.tables ≡ s.tables =
      site_at (λ z. z.tables ≡ s.tables) q (turn-keeps user_id k i s.tables) in
    let read : (turn user_id k i s.tables).0 ≡ ok p = ground (arith, q) in rw same read

-- Parts of a chain that return, or raise.
module _ {World A : Type 0} (m : Route World A) {a : A} {s s' : Site World}
    (q : m s ≡ (ok a, s')) where
  pub catch_ok : (handler : ApiError → Route World A) → catch m handler s ≡ (ok a, s')
  unfolding catch
  catch_ok handler = ap (λ o. elim o.0 [ ok b ↦ (ok b, o.1) | err e ↦ handler e o.1 ]) q

  pub bind_ok : {B : Type 0} (f : A → Route World B) → (m >>= f) s ≡ f a s'
  bind_ok f = ap (λ o. elim o.0 [ ok b ↦ f b o.1 | err e ↦ (err e, o.1) ]) q

pub on_world-ok :
    {World A : Type 0} (m : Exec RunError World A) (a : A) (w' : World) (s : Site World)
    → m s.world ≡ (ok a, w')
    → on_world m s ≡ (ok a, record s { world = w' })
unfolding on_world
on_world-ok m a w' s q = ap (λ o. (map_error run_error o.0, record s { world = o.1 })) q

module _ {World A : Type 0} (m : StoreMethod A) (t : Tables) (s : Site World) where
  pub on_tables-ok :
      (a : A) → m s.tables ≡ (ok a, t) → on_tables m s ≡ (ok a, record s { tables = t })
  unfolding on_tables
  on_tables-ok a q = ap (λ o. (map_error store_error o.0, record s { tables = o.1 })) q

  pub on_tables-err :
      (e : PortalError)
      → m s.tables ≡ (err e, t)
      → on_tables m s ≡ (err (store_error e), record s { tables = t })
  unfolding on_tables
  on_tables-err e q = ap (λ o. (map_error store_error o.0, record s { tables = o.1 })) q

pub bind_err :
    {World A B : Type 0} (m : Route World A) {e : ApiError} {s s' : Site World}
    → m s ≡ (err e, s')
    → (f : A → Route World B) → (m >>= f) s ≡ (err e, s')
bind_err m q f = ap (λ o. elim o.0 [ ok b ↦ f b o.1 | err x ↦ (err x, o.1) ]) q

-- A part that only reads.
abbrev pub Reads : {World A : Type 0} → Route World A → Type 0
Reads {World} m = (s : Site World) → (m s).1 ≡ s

pub reads_bind :
    {World A B : Type 0} (m : Route World A) (f : A → Route World B) (s : Site World)
    (Q : Result ApiError B × Site World → Type 0)
    → Reads m
    → ((e : ApiError) → Q (err e, s))
    → ((a : A) → Q (f a s))
    → Q ((m >>= f) s)
reads_bind {World = World} {A = A} m f s Q reads raised next =
    bind_rule m f s Q (λ a s' q. subst (λ z. Q (f a z)) (sym (same s' q)) (next a))
      (λ e s' q. subst (λ z. Q (err e, z)) (sym (same s' q)) (raised e))
  where
    same : {r : Result ApiError A} (s' : Site World) → m s ≡ (r, s') → s' ≡ s
    same s' q = site_at (λ z. z ≡ s) q (reads s)

pub Reads-bind :
    {World A B : Type 0} (m : Route World A) (f : A → Route World B)
    → Reads m
    → ((a : A) → Reads (f a))
    → Reads (m >>= f)
Reads-bind m f h k s = reads_bind m f s (λ o. o.1 ≡ s) h (λ e. refl) (λ a. k a s)

pub Reads-raise_if :
    {World : Type 0} (b : Bool) (e : ApiError) → Reads {World = World} (raise_if b e)
Reads-raise_if true e s = refl
Reads-raise_if false e s = refl

pub Reads-on_tables :
    {World A : Type 0} (m : StoreMethod A)
    → ((t : Tables) → (m t).1 ≡ t)
    → Reads {World = World} (on_tables m)
unfolding on_tables
Reads-on_tables m keeps s = ap (λ t. record s { tables = t }) (keeps s.tables)
