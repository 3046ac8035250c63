-- ===== src/Kind/Veth/Tests.antt =====
-- A run of createDataVeths on a machine that follows the manual of ip-link.
use dpu_simulator.Base.{
  ℕ, ap, ◌≡◌, refl, Bool, true, false, List, Option, none, some, String, str_eq, if◌then◌else◌,
  get_elem?, arith,
}
use dpu_simulator.Base.Int.{pos}
use dpu_simulator.Kind.Veth.{
  machine, in_host, in_dpu, Runner, PairEnds, create_data_veths, create_from, create_data_veth,
  deliver, dress, veth_host_end, veth_dpu_end, dpu_data_if,
}
use dpu_simulator.Base.Text.{itoa, digits, digit}
use dpu_simulator.DevicePlugin.Names.{host_data_if}
use dpu_simulator.Kind.Veth.Links.{Link, new_link, Net, put, IpLink}
use dpu_simulator.Kind.Veth.Built.{Joined, create_data_veths-Joined}

abbrev argument : List String → ℕ → String
argument args i = elim (get_elem? args i) [ none ↦ "" | some arg ↦ arg ]

-- What becomes of an interface that has to be there.
abbrev on_link : Net → Option Link → (Link → Net) → Bool × Net
on_link net none change = (false, net)
on_link net (some l) change = (true, change l)

abbrev add_pair : String → String → Net → Net
add_pair a b net = put (put net machine a (some (new_link a "m"))) machine b (some (new_link a "n"))

abbrev ip : Runner Net
ip p args net =
    let a = argument args 3 in
    if str_eq (argument args 0) "sudo"
    then (if str_eq (argument args 3) "add"
        then (true, add_pair (argument args 4) (argument args 9) net)
        else on_link net (net machine (argument args 4)) (λ l.
          put (put net machine (argument args 4) none)
            (if str_eq (argument args 6) "100" then in_host else in_dpu) (argument args 4)
            (some (record l { is_up = false }))))
    else if str_eq (argument args 4) "name"
    then on_link net (net p a) (λ l. put (put net p a none) p (argument args 5) (some l))
    else if str_eq (argument args 4) "address"
    then on_link net (net p a) (λ l. put net p a (some (record l { mac = argument args 5 })))
    else on_link net (net p a) (λ l. put net p a (some (record l { is_up = true })))

abbrev ends : PairEnds
ends = record {
  pair = 0;
  host_pid = "100";
  dpu_pid = "200";
  host_mac = λ i. "52:54:00:aa:aa:00";
  dpu_mac = λ i. "52:54:00:bb:bb:00";
}

abbrev bare : Net
bare p n = none

on_link-there :
    (net : Net) (o : Option Link) (l : Link) (change : Link → Net)
    → o ≡ some l
    → (on_link net o change).1 ≡ change l
on_link-there net o l change there = ap (λ o. (on_link net o change).1) there

ip_follows : IpLink ip (λ net. net) ends
unfolding str_eq
ip_follows = record {
  adds = λ a b w ok. ("m", "n", refl);
  moves_to_host = λ a l w ok there. on_link-there w (w machine a) l _ there;
  moves_to_dpu = λ a l w ok there. on_link-there w (w machine a) l _ there;
  renames = λ p a b l w ok there. on_link-there w (w p a) l _ there;
  sets_address = λ p a mac l w ok there. on_link-there w (w p a) l _ there;
  brings_up = λ p a l w ok there. on_link-there w (w p a) l _ there;
}

two_pairs_built : (create_data_veths ip ends (pos 2) bare).0 ≡ some tt
unfolding create_data_veths create_from create_data_veth deliver dress str_eq put veth_host_end itoa
    veth_dpu_end host_data_if dpu_data_if digits digit
two_pairs_built = refl

create_data_veths-Joined_example : Joined ends 1 (create_data_veths ip ends (pos 2) bare).1
create_data_veths-Joined_example =
    create_data_veths-Joined ip (λ net. net) ends ip_follows (pos 2) bare two_pairs_built 1
      (omega arith)
