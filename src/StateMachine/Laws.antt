-- ===== src/StateMachine/Laws.antt =====
-- state_machine.py: what the transition table allows in one move and in many.
use scooling_lab.Base.{
  Bool, true, ◌≡◌, refl, subst, arith, List, [], ◌∷◌, not, ◌||◌, if◌then◌else◌, ◌↔◌,
}
use scooling_lab.Errors.{Result, ok, ◌>>=◌, >>=-eq-ok, ok-injective}
use scooling_lab.StateMachine.{
  TrainingJobStatus, queued, running, succeeded, failed, cancelled, deleted, same, transition_table,
  transition, is_terminal, cancel,
}

-- The statuses that a status can become, in any number of moves.
abbrev pub can_become : TrainingJobStatus → TrainingJobStatus → Bool
can_become queued t = true
can_become running t = not (same t queued)
can_become succeeded t = same t succeeded || same t deleted
can_become failed t = same t failed
can_become cancelled t = same t cancelled
can_become deleted t = same t deleted

-- a run of transitions, each from the status that the one before has left
abbrev pub transitions : TrainingJobStatus → List TrainingJobStatus → Result TrainingJobStatus
transitions c [] = ok c
transitions c (t ∷ ts) = transition c t >>= λ next. transitions next ts

pub can_become_refl : (t : TrainingJobStatus) → can_become t t ≡ true
can_become_refl t = ground arith

pub can_become_trans :
    (a b c : TrainingJobStatus)
    → can_become a b ≡ true
    → can_become b c ≡ true
    → can_become a c ≡ true
can_become_trans a b c h k = ground arith

pub can_become_move :
    (a b : TrainingJobStatus) → transition_table a b ≡ true → can_become a b ≡ true
unfolding transition_table
can_become_move a b h = ground arith

transition-can_become : (a b c : TrainingJobStatus) → transition a b ≡ ok c → can_become a c ≡ true
unfolding transition transition_table
transition-can_become a b c h = ground arith

transitions-can_become :
    (a b : TrainingJobStatus) (ts : List TrainingJobStatus)
    → transitions a ts ≡ ok b
    → can_become a b ≡ true
transitions-can_become a b [] h =
    subst (λ c. can_become a c ≡ true) (ok-injective h) (can_become_refl a)
transitions-can_become a b (t ∷ ts) h =
    let (c, e, rest) = >>=-eq-ok (transition a t) (λ next. transitions next ts) h in
    can_become_trans a c b (transition-can_become a t c e) (transitions-can_become c b ts rest)

route : TrainingJobStatus → TrainingJobStatus → List TrainingJobStatus
route queued succeeded = running ∷ succeeded ∷ []
route queued deleted = running ∷ succeeded ∷ deleted ∷ []
route running deleted = succeeded ∷ deleted ∷ []
route a b = b ∷ []

route_lem : (a b : TrainingJobStatus) → can_become a b ≡ true → transitions a (route a b) ≡ ok b
unfolding route transition transition_table
route_lem queued succeeded h = refl
route_lem queued deleted h = refl
route_lem queued b h = refl
route_lem running queued h = cc h
route_lem running b h = refl
route_lem succeeded succeeded h = refl
route_lem succeeded deleted h = refl
route_lem succeeded b h = cc h
route_lem failed failed h = refl
route_lem failed b h = cc h
route_lem cancelled cancelled h = refl
route_lem cancelled b h = cc h
route_lem deleted deleted h = refl
route_lem deleted b h = cc h

-- A status can become another by some run of transitions, none of which raises, exactly if
-- can_become says so: queued jobs can become anything, and finished ones only deleted, from
-- succeeded.
pub transitions-can_become_iff :
    (a b : TrainingJobStatus)
    → ((ts : List TrainingJobStatus) × (transitions a ts ≡ ok b)) ↔ (can_become a b ≡ true)
transitions-can_become_iff a b =
    (λ h. transitions-can_become a b h.0 h.1, λ h. (route a b, route_lem a b h))

-- A cancellation never raises: it leaves a finished job as it is and cancels every other.
cancel_lem : (c : TrainingJobStatus) → cancel c ≡ ok (if is_terminal c then c else cancelled)
unfolding cancel transition transition_table
cancel_lem c = ground arith
