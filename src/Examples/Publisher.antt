-- ===== src/Examples/Publisher.antt =====
-- The publisher.
use stocker_informer.Base.{List, [], ◌∷◌, none, Text, codes, text_eq, if◌then◌else◌}
use stocker_informer.Errors.{opaque_error, ok, err, Result}
use stocker_informer.Config.{audience_direct, audience_local}
use stocker_informer.Publisher.{Publisher, Values, Response, form}
use stocker_informer.Publisher.Form.{Shows, mention, form-Shows}
use stocker_informer.Publisher.Attempts.{Attempts}
use stocker_informer.Session.{Delivery}
use stocker_informer.Examples.World.{World, contexts}

abbrev first_value : Values → Text
first_value [] = []
first_value ((k, v) ∷ f) = v

-- A server that answers 503 while deliveries wait in the queue, and takes one.
abbrev answer_from : List Delivery → World → Result Response × World
answer_from [] w = (ok (record { status = 200; body = [] }), w)
answer_from (d ∷ ds) w = (ok (record { status = 503; body = [] }), record w { queue = ds })

abbrev publisher : Publisher contexts
publisher = record {
  instance_url = codes "https://social.example";
  username = codes "informer";
  token = codes "t";
  audience = audience_direct;
  recipient = codes "ann@social.example";
  new_request = λ ctx endpoint body. none;
  send = λ ctx endpoint token body w. answer_from w.queue w;
  encode = first_value;
  decode_id = λ bytes. err (opaque_error 4);
}

form-Shows_example :
    let direct = text_eq publisher.audience audience_direct in
    Shows
      (form contexts publisher (codes "Up"))
      (if direct then mention publisher.recipient (codes "Up") else codes "Up")
      (if direct then codes "direct" else codes "public")
      (if text_eq publisher.audience audience_local then codes "true" else codes "false")
form-Shows_example = form-Shows contexts publisher (codes "Up")
