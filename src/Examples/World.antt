-- ===== src/Examples/World.antt =====
-- A world in which a broker has deliveries to send, and a context may have ended.
use stocker_informer.Base.{
  ℕ, Bool, true, false, List, [], ◌∷◌, Option, none, some, codes, if◌then◌else◌, inl, ◌*◌,
}
use stocker_informer.Int.{pos, second}
use stocker_informer.Errors.{Error, canceled, opaque_error, ok, err}
use stocker_informer.Config.{RabbitMqConfig}
use stocker_informer.Contexts.{Contexts}
use stocker_informer.Session
use stocker_informer.Session.{Delivery, Received, delivery, ended, Deliveries, Channel, Connection}
use stocker_informer.Text.{CaseTable}
use stocker_informer.Consumer.{Consumer, Unmarshal}

pub record World : Type 0 where
  pub queue : List Delivery
  pub over : Bool

abbrev pub contexts : Contexts World
contexts = record {
  Ctx = Unit {0};
  ctx_err = λ ctx w. if w.over then some canceled else none;
  with_timeout = λ ctx d w. (ctx, w);
  cancel = λ ctx w. w;
}

-- A context that never ends.
abbrev pub background : Contexts World
background = record {
  Ctx = Unit {0};
  ctx_err = λ ctx w. none;
  with_timeout = λ ctx d w. (ctx, w);
  cancel = λ ctx w. w;
}

abbrev pub next_delivery : List Delivery → World → Received × World
next_delivery [] w = (ended, w)
next_delivery (d ∷ ds) w = (delivery d, record w { queue = ds })

abbrev pub deliveries : (c : Contexts World) → Deliveries c
deliveries c = record {
  select = λ ctx w. next_delivery w.queue w;
  poll = λ w. next_delivery w.queue w;
}

abbrev fine : World → Option Error × World
fine w = (none, w)

abbrev pub channel : (c : Contexts World) → Channel c
channel c = record {
  exchange_declare = λ name kind a b c d w. fine w;
  queue_declare = λ name a b c d w. fine w;
  queue_bind = λ name key exchange a w. fine w;
  qos = λ count size global w. fine w;
  consume = λ queue tag a b c' d w. (ok (deliveries c), w);
  cancel = λ tag a w. fine w;
  ack = λ tag a w. fine w;
  nack = λ tag a b w. fine w;
  close = λ w. fine w;
}

abbrev pub connection : (c : Contexts World) → Connection c
connection c = record { channel = λ w. (ok (channel c), w); close = λ w. fine w }

abbrev pub session : (c : Contexts World) → Session.Session c
session c = record {
  conn = connection c;
  ch = channel c;
  deliveries = deliveries c;
  tag = codes "stocker-informer-7";
  closed = false;
}

abbrev pub settings : RabbitMqConfig
settings = record {
  url = codes "amqp://broker/";
  input_exchange = codes "stock.summary";
  input_exchange_type = codes "topic";
  input_routing_key = codes "stock.summary.available.v1";
  queue = codes "stocker-informer";
  prefetch = pos 1;
  connect_timeout = pos (10 * second);
}

-- A body is a stock unless it is empty.
abbrev pub unmarshal : Unmarshal
unmarshal [] = err (opaque_error 1)
unmarshal (b ∷ bytes) = ok (codes " abc ", codes "nyse")

abbrev pub consumer : (c : Contexts World) → Consumer c
consumer c = record {
  cfg = settings;
  unmarshal = unmarshal;
  summaries = λ ctx exchange symbol w. (ok (codes " up 3% \n"), w);
  rewriter = some (λ ctx text w. (ok (codes "Up by 3%.\n"), w));
  publisher = λ ctx text w. (none, w);
  dial = λ ctx url timeout w. (ok (connection c), w);
  sleep = λ ctx d w. (none, w);
  tag = codes "stocker-informer-7";
}

-- A consumer whose broker cannot be reached.
abbrev pub stranded : (c : Contexts World) → Consumer c
stranded c =
    let base = consumer c in record base { dial = λ ctx url timeout w. (err (opaque_error 2), w) }

abbrev pub signal : ℕ → Delivery
signal tag = record {
  body = 10 ∷ [];
  routing_key = codes "stock.summary.available.v1";
  delivery_tag = tag;
  redelivered = false;
}

abbrev pub poison : Delivery
poison = record {
  body = [];
  routing_key = codes "stock.summary.available.v1";
  delivery_tag = 9;
  redelivered = true;
}

abbrev pub start : World
start = record { queue = signal 1 ∷ poison ∷ signal 2 ∷ []; over = false }

abbrev pub ending : World
ending = record { queue = signal 1 ∷ []; over = true }

-- Runes beyond ASCII have no case here.
abbrev pub plain_case : CaseTable
plain_case = record {
  upper = λ r. r;
  lower = λ r. r;
  upper_lands = λ r h. inl h;
  lower_lands = λ r h. inl h;
}
