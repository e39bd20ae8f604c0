-- ===== src/Examples/OfEndpoints.antt =====
-- The requests of the client with concrete arguments.
use together.Base.{String, none, some, [], ◌∷◌}
use together.Endpoints.Delivery.Table.{Arguments}

abbrev arguments : Arguments String
arguments = record {
  action = none;
  actor_id = some "u2";
  before = some "m9";
  bot_id = "b1";
  channel_id = "c1";
  code = "welcome";
  content = "hello";
  email = "a@b.c";
  emoji = "+1";
  emoji_id = "e1";
  file = "cat.png";
  files = "cat.png" ∷ "dog.png" ∷ [];
  invite_id = "i1";
  limit = some 50;
  message_id = "m1";
  name = "cat";
  only_channel_id = some "c1";
  option_id = "o1";
  optional_payload = none;
  override_id = "p1";
  page = some 2;
  payload = "{}";
  per_page = none;
  poll_id = "q1";
  q = "cats";
  role_id = "r1";
  search_text = some "ann";
  server_id = "s1";
  sort_by = none;
  target_type = none;
  url = "https://b.c";
  user_id = "u1";
  webhook_id = "w1";
  word = "bad";
}
