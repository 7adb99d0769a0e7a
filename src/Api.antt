-- ===== src/Api.antt =====
-- src/api/plugins/auth.ts and src/api/routes/notify.ts. The zod schema of the body is a parameter.
pub mod Laws
pub mod AnyQueue
pub mod Routes
pub mod Bearer
use notify_hub.Base.{
  ℕ, Bool, true, false, ◌&&◌, ◌||◌, not, Option, none, some, List, [], ◌∷◌, ◌++◌, map, any, take,
  drop, last, Text, lit, ◌==◌, eqb, trim, drop_while, is_space, if◌then◌else◌,
}
use notify_hub.Core.{
  Priority, Value, str, Fields, end, field, Notification, ProfileRecord, DispatchJob,
  ChannelInstance,
}
use notify_hub.Db.{Db}
use notify_hub.Db.Channels
use notify_hub.Db.Profiles
use notify_hub.Ports.{Io, ◌>>=◌, ◌>>◌, pure, try_catch, log, error, object, QueuePort, World}
use notify_hub.Channels.Adapters.Direct.{lower_ascii}

-- What `.` does not match.
is_line_end : ℕ → Bool
is_line_end c = eqb c 10 || eqb c 13 || eqb c 0x2028 || eqb c 0x2029

-- The last unit is white space that `.` matches.
ends_in_dot : Option ℕ → Bool
unfolding is_line_end
ends_in_dot none = false
ends_in_dot (some c) = not (is_line_end c)

-- What `(.+)` captures when `after` follows `Bearer`, and `rest` follows all white space of it. If
-- that is empty, the white space before gives its last unit back, which must not be the only one.
captured : Text → Text → Option Text
unfolding is_line_end ends_in_dot
captured [] rest = none
captured (c ∷ after) [] = if ends_in_dot (last after) then some [] else none
captured (c ∷ after) (d ∷ rest) =
    if is_space c && not (any is_line_end (d ∷ rest)) then some (trim (d ∷ rest)) else none

-- `extractBearerToken`: BEARER_PREFIX is `/^Bearer\s+(.+)$/i`. The empty header is as a missing one.
unfoldable pub extract_bearer_token : Option Text → Option Text
unfolding captured lower_ascii
extract_bearer_token none = none
extract_bearer_token (some header) =
    let after = drop 6 header in
    if map lower_ascii (take 6 header) == lit "bearer"
    then captured after (drop_while is_space after)
    else none

-- The parsed body.
pub record NotifyBody : Type 0 where
  pub title : Option Text
  pub message : Text
  pub channels : Option (List Text)
  pub priority : Option Priority
  pub tags : Option (List Text)
  pub metadata : Option Fields

-- `safeParse`: a body, or the first issue's message if there is one.
pub data Parsed : Type 0 where
  success : NotifyBody → Parsed
  failure : Option Text → Parsed

pub data Reply : Type 0 where
  accepted : Text → Reply
  bad_request : Text → Reply
  unauthorized : Reply
  unavailable : Reply

pub issue_message : Option Text → Text
issue_message none = lit "invalid request body"
issue_message (some message) = message

title_of : Option Text → Text
title_of none = lit "Notification"
title_of (some title) = title

-- `body.metadata?.dedupKey`, when it is a string.
dedup_field : Fields → Option Text
dedup_field end = none
dedup_field (field k (str s) fields) = if k == lit "dedupKey" then some s else dedup_field fields
dedup_field (field k v fields) = if k == lit "dedupKey" then none else dedup_field fields

unfoldable pub dedup_key_of : Option Fields → Option Text
unfolding dedup_field
dedup_key_of none = none
dedup_key_of (some fields) = dedup_field fields

unfoldable pub job_of : ProfileRecord → NotifyBody → DispatchJob
unfolding title_of dedup_key_of
job_of profile body = record {
  notification = record {
    title = title_of body.title;
    message = body.message;
    priority = body.priority;
    tags = body.tags;
    metadata = body.metadata;
  };
  profile_id = profile.id;
  profile_name = some profile.name;
  requested_channels = body.channels;
  dedup_key = dedup_key_of body.metadata;
}

-- The first requested id that no instance has.
unfoldable pub first_unknown : Db → List Text → Option Text
unfolding Channels.get
first_unknown db [] = none
first_unknown db (id ∷ ids) = elim (Channels.get db id) [
  | none ↦ some id
  | some channel ↦ first_unknown db ids
]

unfoldable pub unknown_channel : Db → Option (List Text) → Option Text
unfolding first_unknown
unknown_channel db none = none
unknown_channel db (some ids) = first_unknown db ids

unfoldable pub enqueue_job : QueuePort → DispatchJob → Io Reply
enqueue_job queue job =
    try_catch (queue.enqueue_dispatch job) (λ job_id. pure (accepted job_id))
      (λ e. do
        log error (object ((lit "err", str e) ∷ [])) (lit "enqueueDispatch failed; returning 503")
        pure unavailable)

abbrev unknown_message : Text → Text
unknown_message id = lit "unknown channel \"" ++ (id ++ lit "\"")

enqueue_known : QueuePort → DispatchJob → Option Text → Io Reply
unfolding enqueue_job
enqueue_known queue job (some id) = pure (bad_request (unknown_message id))
enqueue_known queue job none = enqueue_job queue job

notify_parsed : QueuePort → ProfileRecord → Parsed → Io Reply
unfolding issue_message job_of unknown_channel enqueue_known
notify_parsed queue profile (failure issue) = pure (bad_request (issue_message issue))
notify_parsed queue profile (success body) =
    λ w. enqueue_known queue (job_of profile body) (unknown_channel w.db body.channels) w

-- The route after its `preHandler`, which replies 401 when no profile has the token.
notify_as : QueuePort → Parsed → Option ProfileRecord → Io Reply
unfolding notify_parsed
notify_as queue parsed none = pure unauthorized
notify_as queue parsed (some profile) = notify_parsed queue profile parsed

-- `POST /notify` with this `Authorization` header and body.
unfoldable pub post_notify : QueuePort → (Value → Parsed) → Option Text → Value → Io Reply
unfolding notify_as extract_bearer_token Profiles.resolve_by_token
post_notify queue safe_parse authorization body w =
    notify_as queue (safe_parse body)
      (Profiles.resolve_by_token w.db (extract_bearer_token authorization)) w
