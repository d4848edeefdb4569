-- ===== src/Intel/Stocktwits.antt =====
-- Stocktwits in src/providers/sentiment.py: the label of a message, the counts, and the posts.
use finpipe.Base.{
  ℕ, ◌+◌, not, ◌||◌, Option, none, some, List, [], ◌∷◌, String, str_eq, concat, if◌then◌else◌,
}
use finpipe.Errors.{Result, ok, raise, type_error, value_error, key_error, ◌>>=◌}
use finpipe.Json.{Json, null, str, arr, obj, Items, nil, cons, Fields, end, get, truthy}
use finpipe.Json.Access.{get_or, items_of, chars}
use finpipe.Text.{Unicode}
use finpipe.Intel.Sources.{Counts, SocialPost, microblog, take_items, Python, printed, or_else}

-- the lower-case text under a key of a dict, if there is one
abbrev pub label_in : Unicode → String → Json → Option String
label_in u key (obj fields) = elim (get key fields) [
  | none ↦ none
  | some v ↦ elim v [ str s ↦ some (u.lower s) | _ ↦ none ]
]
label_in u key v = none

-- `_stocktwits_message_sentiment`
unfoldable pub message_sentiment : Unicode → Json → Result (Option String)
message_sentiment u msg = do
  legacy ← get_or "sentiment" null msg
  elim (label_in u "class" (or_else (obj end) legacy)) [
    | some label ↦ ok (some label)
    | none ↦ get_or "entities" null msg >>= (λ entities.
        get_or "sentiment" null (or_else (obj end) entities)
        >>= (λ sentiment. ok (label_in u "basic" (or_else (obj end) sentiment))))
  ]

abbrev pub count_label : Option String → Counts → Counts
count_label none c = c
count_label (some label) c =
    if str_eq label "bullish"
    then record c { bullish = c.bullish + 1 }
    else (if str_eq label "bearish" then record c { bearish = c.bearish + 1 } else c)

-- the loop over the messages
unfoldable pub count_messages : Unicode → Items → Counts → Result Counts
count_messages u nil c = ok c
count_messages u (cons msg msgs) c = do
  label ← message_sentiment u msg
  count_messages u msgs (count_label label c)

-- `_fetch_stocktwits_stream`, once there is a client: nothing where the request raises or its payload is no dict
unfoldable pub stream_of : Result Json → Option Fields
stream_of (ok (obj fields)) = some fields
stream_of _ = none

-- `data.get("messages", [])`
abbrev pub messages_of : Fields → Result Items
messages_of fields = get_or "messages" (arr nil) (obj fields) >>= items_of

-- `data.get("messages", [])[:limit]`
unfoldable pub first_messages : ℕ → Fields → Result Items
first_messages limit fields = elim (get "messages" fields) [
  | none ↦ ok nil
  | some v ↦ elim v [
    | arr vs ↦ ok (take_items limit vs)
    | str s ↦ ok (take_items limit (chars s))
    | obj fs ↦ raise (key_error "slice")
    | _ ↦ raise (type_error "object is not subscriptable")
  ]
]

-- `_fetch_stocktwits_sentiment` behind the stream
unfoldable pub stocktwits_counts : Unicode → Fields → Result Counts
unfolding count_messages
stocktwits_counts u fields = do
  messages ← messages_of fields
  count_messages u messages (record { bullish = 0; bearish = 0 })

-- `SocialPost(kind=MICROBLOG, text=body, url=..., author=username)`, which demands texts, or None as author
abbrev pub microblog_post : Json → Json → String → Result SocialPost
microblog_post (str body) (str username) url =
    ok (record { kind = microblog; text = body; url = url; title = none; author = some username })
microblog_post (str body) null url =
    ok (record { kind = microblog; text = body; url = url; title = none; author = none })
microblog_post body username url = raise (value_error "validation error for SocialPost")

-- What a message makes: a post, or nothing where it has no body or no id.
unfoldable pub message_post : Python → Json → Result (Option SocialPost)
message_post py msg = do
  body ← get_or "body" (str "") msg
  user ← get_or "user" (obj end) msg
  username ← get_or "username" (str "unknown") user
  msg_id ← get_or "id" (str "") msg
  if not (truthy body) || not (truthy msg_id)
      then ok none
      else (microblog_post body username (
            concat "https://stocktwits.com/"
              (concat (printed py username) (concat "/message/" (printed py msg_id))))
          >>= (λ post. ok (some post)))

abbrev pub consed : Option SocialPost → List SocialPost → List SocialPost
consed none posts = posts
consed (some post) posts = post ∷ posts

unfoldable pub message_posts : Python → Items → Result (List SocialPost)
unfolding message_post
message_posts py nil = ok []
message_posts py (cons msg msgs) = do
  post ← message_post py msg
  posts ← message_posts py msgs
  ok (consed post posts)

-- `_fetch_stocktwits_posts` behind the stream
unfoldable pub stocktwits_posts : Python → ℕ → Fields → Result (List SocialPost)
unfolding first_messages message_posts
stocktwits_posts py limit fields = first_messages limit fields >>= message_posts py
