-- ===== src/Client/Stack/Tests.antt =====
-- Runs of the set-up of the stack.
use cftun.Common.{count, ◌≡◌, refl, true, false, none, some, List, [], ◌∷◌, flatten}
use cftun.Client.Metadata.{four}
use cftun.Client.Stack.{moderate_receive_buffer, set_tcp_option, create_nic, Replies}
use cftun.Client.Stack.Options.{TcpDefaults, with_tcp_moderate_receive_buffer}
use cftun.Client.Stack.Create.{Config, create_stack}
use cftun.Client.Stack.Plan.{Plan, FollowsEach, done, also, attempt-Follows}
use cftun.Client.Stack.Steps.{all_steps}
use cftun.Client.Stack.Outcome.{Outcome, create_stack-Outcome}
use cftun.Client.Stack.Order.{no_nic, is_nic, role, HandlersFirst, create_stack-HandlersFirst}
use cftun.Client.Stack.Forwarders.{Answers, forward_tcp, set_socket_options}
use cftun.Client.Stack.Requests.{is_complete}

abbrev defaults : TcpDefaults
defaults = record {
  min_buffer_size = 1;
  default_send_buffer_size = 2;
  default_receive_buffer_size = 3;
  max_buffer_size = 4;
  rack_loss_detection = 1;
}

-- A stack that refuses a NIC.
abbrev full : Replies
full calls (create_nic n) = some "duplicate nic id"
full calls c = none

abbrev moderated : Config
moderated = record {
  multicast_groups = four (224 ∷ 0 ∷ 0 ∷ 1 ∷ []) ∷ [];
  options = with_tcp_moderate_receive_buffer true ∷ [];
}

abbrev plans : List Plan
plans =
    ((set_tcp_option (moderate_receive_buffer true), some "set TCP moderate receive buffer") ∷ [])
    ∷ []

moderated_plans : FollowsEach plans moderated.options
unfolding with_tcp_moderate_receive_buffer
moderated_plans = also (attempt-Follows _ _) done

create_stack-Outcome_example :
    Outcome full []
      (all_steps defaults plans 1 moderated.multicast_groups)
      (create_stack defaults 1 moderated full [])
create_stack-Outcome_example = create_stack-Outcome defaults 1 moderated plans full moderated_plans

create_stack-HandlersFirst_example : HandlersFirst ((create_stack defaults 1 moderated full []).0)
unfolding no_nic flatten is_nic role
create_stack-HandlersFirst_example =
    create_stack-HandlersFirst defaults 1 moderated plans full moderated_plans refl

-- An endpoint that takes no keep-alive interval.
abbrev stubborn : Answers
stubborn = record {
  created = true;
  idle = true;
  interval = false;
  count = true;
  send_default = none;
  receive_default = some 7;
}

stubborn_completed : count is_complete (forward_tcp stubborn) ≡ 1
unfolding forward_tcp is_complete set_socket_options
stubborn_completed = refl
