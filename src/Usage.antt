-- ===== src/Usage.antt =====
-- worker/services/usage_metrics.py: how long messages stay at each stage. A message is named by a
-- number, its identity, and `message` gives its attributes; a message stays alive while it is at
-- a stage, so that nothing leaves a `WeakSet` by itself. Each reading of the clock is an argument,
-- and the clock does not run backwards. A usage is a pair: what is divided, and by what.
pub mod Stopwatch
pub mod Stages
pub mod Placed
use data_lineup.Base.{
  ℕ, ◌+◌, ◌-◌, ◌*◌, String, Bool, true, false, ◌&&◌, Option, none, some, List, [], ◌∷◌, length, Eq,
  ◌==◌, ==_iff, string_eq, nat_eq, eqb, if◌then◌else◌, or_else, ◌≡◌, ◌↔◌, arith,
}
use data_lineup.Dict.{Dict, lookup, insert, elem, add, discard}
use data_lineup.Inventory.{is_empty}

pub record PipelineState : Type 0 where
  pub messages : List ℕ
  pub last_flushed_at : ℕ
  pub last_collected_at : ℕ
  pub usage : ℕ

-- The two default factories read the clock one after the other.
abbrev pub new_pipeline : (flushed collected : ℕ) → PipelineState
new_pipeline flushed collected = record {
  messages = [];
  last_flushed_at = flushed;
  last_collected_at = collected;
  usage = 0;
}

-- `clock` is what `flush` itself reads; its parameter `now` is overwritten with it.
unfoldable pub flush : (now clock : ℕ) → PipelineState → PipelineState
flush _ clock s =
    let since_flush = clock - s.last_flushed_at in
    record s { usage = s.usage + since_flush * length s.messages; last_flushed_at = clock }

-- `PipelineState.add` and `PipelineState.pop`
unfoldable pub enter : (now clock m : ℕ) → PipelineState → PipelineState
unfolding flush
enter now clock m s = let s' = flush now clock s in record s' { messages = add m s'.messages }

unfoldable pub leave : (now clock m : ℕ) → PipelineState → PipelineState
unfolding flush
leave now clock m s =
    if elem m s.messages
    then (let s' = flush now clock s in record s' { messages = discard m s'.messages })
    else s

-- `none` is a `ZeroDivisionError`.
unfoldable pub collect : (now clock : ℕ) → PipelineState → Option (ℕ × ℕ) × PipelineState
unfolding flush
collect now clock s =
    let s' = flush now clock s in
    if eqb now s'.last_collected_at then (none, s') else (
      some (s'.usage, now - s'.last_collected_at),
      record s' { last_collected_at = now; usage = 0 },
    )

-- The attributes of a message that `StageState._name` reads.
pub record ExecutableMessage : Type 0 where
  pub executor : Option String
  pub labels : Dict String String
  pub pipeline : String

-- Labels as a frozenset, executor and name.
abbrev pub PipelineName : Type 0 → Type 0
PipelineName L = L × String × String

module _ {L : Type 0} ⦃e : Eq L⦄ where
  unfoldable pub same_name : PipelineName L → PipelineName L → Bool
  same_name (a, b, c) (a', b', c') = (a == a') && ((b == b') && (c == c'))

  pub same_name_iff : (x y : PipelineName L) → (same_name x y ≡ true) ↔ (x ≡ y)
  unfolding same_name
  same_name_iff (a, b, c) (a', b', c') = ground (arith, ==_iff a a', ==_iff b b', ==_iff c c')

  instance abbrev pub name_eq : Eq (PipelineName L)
  name_eq = record { same = same_name; same_iff = same_name_iff }

-- What the clock reads during one `push` or `pop`, in the order of the calls.
pub record Readings : Type 0 where
  pub last_flushed_at : ℕ
  pub last_collected_at : ℕ
  pub now : ℕ
  pub flushed : ℕ

pub data Stage : Type 0 where
  polling scheduling submitting executing processing_results publishing waiting_publish : Stage

-- `setdefault(…, PipelineState())` and the `add` after it.
unfoldable pub entered : Readings → ℕ → Option PipelineState → PipelineState
unfolding enter
entered r m none = enter r.now r.flushed m (new_pipeline r.last_flushed_at r.last_collected_at)
entered r m (some s) = enter r.now r.flushed m s

module _ {L : Type 0} ⦃e : Eq L⦄ where
  -- `StageState.push` and `StageState.pop`, of a message with this name.
  abbrev pub push :
      PipelineName L
      → Readings
      → ℕ
      → Dict (PipelineName L) PipelineState
      → Dict (PipelineName L) PipelineState
  push name r m pipelines = insert name (entered r m (lookup name pipelines)) pipelines

  abbrev pub pop :
      PipelineName L
      → Readings
      → ℕ
      → Dict (PipelineName L) PipelineState
      → Dict (PipelineName L) PipelineState
  pop name r m pipelines = elim (lookup name pipelines) [
    | none ↦ pipelines
    | some s ↦ insert name (leave r.now r.flushed m s) pipelines
  ]

-- The pipelines of each stage.
pub record StagesState (L : Type 0) : Type 0 where
  pub polling : Dict (PipelineName L) PipelineState
  pub scheduling : Dict (PipelineName L) PipelineState
  pub submitting : Dict (PipelineName L) PipelineState
  pub executing : Dict (PipelineName L) PipelineState
  pub processing_results : Dict (PipelineName L) PipelineState
  pub publishing : Dict (PipelineName L) PipelineState
  pub waiting_publish : Dict (PipelineName L) PipelineState

module _ {L : Type 0} where
  abbrev pub no_stages : StagesState L
  no_stages = record {
    polling = [];
    scheduling = [];
    submitting = [];
    executing = [];
    processing_results = [];
    publishing = [];
    waiting_publish = [];
  }

  -- `getattr(self.stages_state, stage_name)`
  abbrev pub get_stage : Stage → StagesState L → Dict (PipelineName L) PipelineState
  get_stage polling s = s.polling
  get_stage scheduling s = s.scheduling
  get_stage submitting s = s.submitting
  get_stage executing s = s.executing
  get_stage processing_results s = s.processing_results
  get_stage publishing s = s.publishing
  get_stage waiting_publish s = s.waiting_publish

  abbrev pub set_stage : Stage → Dict (PipelineName L) PipelineState → StagesState L → StagesState L
  set_stage polling d s = record s { polling = d }
  set_stage scheduling d s = record s { scheduling = d }
  set_stage submitting d s = record s { submitting = d }
  set_stage executing d s = record s { executing = d }
  set_stage processing_results d s = record s { processing_results = d }
  set_stage publishing d s = record s { publishing = d }
  set_stage waiting_publish d s = record s { waiting_publish = d }

module _ {L : Type 0} ⦃e : Eq L⦄ (frozenset : Dict String String → L)
    (message : ℕ → ExecutableMessage) where
  -- `StageState._name`; an empty name of an executor is falsy as well.
  abbrev pub name_of : ℕ → PipelineName L
  name_of m =
      let x = message m in
      let executor : String = elim x.executor [
        | none ↦ "default"
        | some name ↦ if is_empty name then "default" else name
      ] in
      (frozenset x.labels, executor, x.pipeline)

  abbrev pub push_at : Stage → Readings → ℕ → StagesState L → StagesState L
  push_at k r m s = set_stage k (push (name_of m) r m (get_stage k s)) s

  abbrev pub pop_at : Stage → Readings → ℕ → StagesState L → StagesState L
  pop_at k r m s = set_stage k (pop (name_of m) r m (get_stage k s)) s

  -- `self.stages_state.<to>.push(self.stages_state.<source>.pop(xmsg))`
  abbrev pub move : (source to : Stage) → Readings → Readings → ℕ → StagesState L → StagesState L
  move source to r r' m s = push_at to r' m (pop_at source r m s)

  abbrev pub on_message_polled : Readings → ℕ → StagesState L → StagesState L
  on_message_polled r m s = push_at polling r m s

  abbrev pub on_message_scheduled : Readings → Readings → ℕ → StagesState L → StagesState L
  on_message_scheduled r r' m s = move polling scheduling r r' m s

  abbrev pub on_message_submitted : Readings → Readings → ℕ → StagesState L → StagesState L
  on_message_submitted r r' m s = move scheduling submitting r r' m s

  -- Each of the other hooks up to its `yield`, and its `finally`.
  abbrev pub begin_executed : Readings → Readings → ℕ → StagesState L → StagesState L
  begin_executed r r' m s = move submitting executing r r' m s

  abbrev pub end_executed : Readings → ℕ → StagesState L → StagesState L
  end_executed r m s = pop_at executing r m s

  abbrev pub begin_results : Readings → ℕ → StagesState L → StagesState L
  begin_results r m s = push_at processing_results r m s

  abbrev pub end_results : Readings → ℕ → StagesState L → StagesState L
  end_results r m s = pop_at processing_results r m s

  abbrev pub begin_published : Readings → Readings → ℕ → StagesState L → StagesState L
  begin_published r r' m s = move processing_results publishing r r' m s

  -- Here nothing is passed on from the `pop`.
  abbrev pub end_published : Readings → Readings → ℕ → StagesState L → StagesState L
  end_published r r' m s = move publishing processing_results r r' m s

  abbrev pub begin_blocked : Readings → Readings → ℕ → StagesState L → StagesState L
  begin_blocked r r' m s = move publishing waiting_publish r r' m s

  abbrev pub end_blocked : Readings → ℕ → StagesState L → StagesState L
  end_blocked r m s = pop_at waiting_publish r m s
