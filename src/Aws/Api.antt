-- ===== src/Aws/Api.antt =====
-- src/aws.cpp: the operation and the body of each request to the services.
use haiku_mgmt_agent.Prelude.{Bool, if◌then◌else◌}
use haiku_mgmt_agent.Prelude.Int.{pos}
use haiku_mgmt_agent.Prelude.Text.{Bytes, is_empty, codes}
use haiku_mgmt_agent.Json.Value.{Doubles, Value, Fields, str, num, obj, end, insert}
use haiku_mgmt_agent.Json.Dump.{dump}
use haiku_mgmt_agent.Aws.Imds.{InstanceIdentity}

-- The arguments of `call`: the service, the target's prefix, the operation and the body.
pub record Operation : Type 0 where
  pub service : Bytes
  pub target_prefix : Bytes
  pub operation : Bytes
  pub body : Bytes

-- A field that is only set when the text is not empty.
unfoldable pub insert_some : Bytes → Bytes → Fields → Fields
unfolding insert
insert_some key s fs = if is_empty s then fs else insert key (str s) fs

module _ (fp : Doubles) where
  abbrev pub of_ssm : Bytes → Fields → Operation
  of_ssm operation fs = record {
    service = codes "ssm";
    target_prefix = codes "AmazonSSM";
    operation = operation;
    body = dump fp (obj fs);
  }

  abbrev pub of_ec2messages : Bytes → Fields → Operation
  of_ec2messages operation fs = record {
    service = codes "ec2messages";
    target_prefix = codes "EC2WindowsMessageDeliveryService";
    operation = operation;
    body = dump fp (obj fs);
  }

  unfoldable pub update_instance_information :
      InstanceIdentity
      → (platform_name platform_version agent_name agent_version : Bytes) → Operation
  unfolding insert_some insert dump
  update_instance_information id platform_name platform_version agent_name agent_version =
      of_ssm (codes "UpdateInstanceInformation") (
        insert_some (codes "AvailabilityZone") id.availability_zone (
          insert_some (codes "ComputerName") id.hostname (
            insert_some (codes "IPAddress") id.private_ip (
              insert (codes "SSMConnectionChannel") (str (codes "ec2messages")) (
                insert (codes "PlatformVersion") (str platform_version) (
                  insert (codes "PlatformName") (str platform_name) (
                    insert (codes "PlatformType") (str (codes "Linux")) (
                      insert (codes "AgentStatus") (str (codes "Active")) (
                        insert (codes "AgentVersion") (str agent_version) (
                          insert (codes "AgentName") (str agent_name)
                            (insert (codes "InstanceId") (str id.instance_id) end)))))))))))

  -- `uuid` is the fresh id of `uuid4`.
  unfoldable pub get_messages : (instance_id uuid : Bytes) → Operation
  unfolding insert dump
  get_messages instance_id uuid = of_ec2messages (codes "GetMessages") (
      insert (codes "VisibilityTimeoutInSeconds") (num (fp.of_int (pos 10)) Bool.true) (
        insert (codes "MessagesRequestId") (str uuid)
          (insert (codes "Destination") (str instance_id) end)))

  unfoldable pub acknowledge_message : Bytes → Operation
  unfolding insert dump
  acknowledge_message message_id =
      of_ec2messages (codes "AcknowledgeMessage") (insert (codes "MessageId") (str message_id) end)

  unfoldable pub send_reply : (message_id payload_json uuid : Bytes) → Operation
  unfolding insert dump
  send_reply message_id payload_json uuid = of_ec2messages (codes "SendReply") (
      insert (codes "ReplyId") (str uuid) (
        insert (codes "Payload") (str payload_json)
          (insert (codes "MessageId") (str message_id) end)))

  unfoldable pub fail_message : (message_id failure_type : Bytes) → Operation
  unfolding insert dump
  fail_message message_id failure_type = of_ec2messages (codes "FailMessage") (
      insert (codes "FailureType") (str failure_type)
        (insert (codes "MessageId") (str message_id) end))

  unfoldable pub put_inventory : Bytes → Value → Operation
  unfolding insert dump
  put_inventory instance_id items =
      of_ssm (codes "PutInventory")
        (insert (codes "Items") items (insert (codes "InstanceId") (str instance_id) end))
